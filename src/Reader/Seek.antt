-- ===== src/Reader/Seek.antt =====
-- Seeking in `S3Reader` of src/reader.rs.
use my_s.Base.{
  ℕ, ◌≤◌, ◌<◌, ◌≡◌, ◌≢◌, ◌⊎◌, ◌↔◌, inl, inr, refl, [], none, Bytes, Option-cases, Result, ok, err,
  u64_mod, ℤ, pos, negsuc, ◌+ℤ◌, arith,
}
use my_s.Error.{IoError}
use my_s.Reader.{
  S3Reader, SeekFrom, start, current, end, checked_offset, resolve_offset, seek_target, start_seek,
  poll_complete, set_target,
}
use my_s.Reader.File.{IsOpen, At-nil}

-- The offset that a seek means, as an exact integer.
abbrev pub meant : S3Reader → SeekFrom → ℤ
meant r (start offset) = pos offset
meant r (current delta) = pos r.position +ℤ delta
meant r (end delta) = pos r.size +ℤ delta

module _ (E : Type 0) where
  checked_offset-ok :
      (base : ℕ) (delta : ℤ) (name : Bytes) (t : ℤ) (target : ℕ)
      → (checked_offset {E = E} base delta name t ≡ ok target)
        ↔ ((t ≡ pos target) × (target < u64_mod))
  unfolding checked_offset
  checked_offset-ok base delta name (negsuc n) target = ground arith
  checked_offset-ok base delta name (pos n) target = ground arith

  -- A relative seek is resolved exactly when the true sum is an offset of 64 bits, and then to that sum.
  pub resolve_offset-ok_iff :
      (base : ℕ) (delta : ℤ) (name : Bytes) (target : ℕ)
      → (resolve_offset {E = E} base delta name ≡ ok target)
        ↔ ((pos base +ℤ delta ≡ pos target) × (target < u64_mod))
  unfolding resolve_offset
  resolve_offset-ok_iff base delta name target =
      checked_offset-ok base delta name (pos base +ℤ delta) target

  start_seek-refused :
      (r : S3Reader) (from : SeekFrom)
      → (r.pending ≢ none) ⊎ (r.seek_to ≢ none)
      → ((start_seek {E = E} r from).0 ≡ r) × ((start_seek {E = E} r from).1 ≢ ok tt)
  unfolding start_seek
  start_seek-refused r from busy = ground arith

  seek_target-ok :
      (r : S3Reader) (from : SeekFrom) (target : ℕ)
      → meant r from ≡ pos target
      → target < u64_mod
      → seek_target {E = E} r from ≡ ok target
  unfolding seek_target
  seek_target-ok r (start offset) target means fits = cc
  seek_target-ok r (current delta) target means fits =
      (resolve_offset-ok_iff r.position delta _ target).1 (means, fits)
  seek_target-ok r (end delta) target means fits =
      (resolve_offset-ok_iff r.size delta _ target).1 (means, fits)

  pub start_seek-idle :
      (r : S3Reader) (from : SeekFrom)
      → r.pending ≡ none
      → r.seek_to ≡ none
      → start_seek {E = E} r from ≡ set_target r (seek_target r from)
  unfolding start_seek
  start_seek-idle r from idle free = ground arith

  -- An accepted seek moves to the offset that it means: on an idle reader, with no seek in progress,
  -- if that offset fits into 64 bits, `start_seek` answers `Ok`, `poll_complete` answers the offset and
  -- moves there, what was left over is dropped, and the reader reads the object from there on.
  pub seek-moves :
      (object : Bytes) (r : S3Reader) (from : SeekFrom) (target : ℕ)
      → IsOpen object r
      → r.pending ≡ none
      → r.seek_to ≡ none
      → meant r from ≡ pos target
      → target < u64_mod
      → let s = start_seek {E = E} r from in
        let t = poll_complete s.0 in
        (s.1 ≡ ok tt)
        × (t.1 ≡ target)
        × (t.0.position ≡ target)
        × (t.0.leftover ≡ [])
        × (t.0.seek_to ≡ none)
        × IsOpen object t.0
  unfolding set_target poll_complete
  seek-moves object r from target o idle free means fits =
      rw (start_seek-idle r from idle free, seek_target-ok r from target means fits)
        (
          refl,
          refl,
          refl,
          refl,
          refl,
          record {
            whole = o.whole;
            fits = o.fits;
            offset = fits;
            left = At-nil object target;
            left_inside = inl refl;
            flight = inl idle;
          },
        )

  -- A seek from the position or from the end whose sum lies before the start, or past 64 bits, is
  -- refused, and the reader stays as it was.
  pub seek_out_of_range :
      (r : S3Reader) (from : SeekFrom)
      → ((offset : ℕ) → from ≢ start offset)
      → ((target : ℕ) → meant r from ≡ pos target → u64_mod ≤ target)
      → ((start_seek {E = E} r from).0 ≡ r) × ((start_seek {E = E} r from).1 ≢ ok tt)
  unfolding start_seek
  seek_out_of_range r from relative out = elim (Option-cases r.pending) [
    | inr (p, e) ↦ start_seek-refused r from (inl (λ idle. cc))
    | inl idle ↦ elim (Option-cases r.seek_to) [
      | inr (t, e) ↦ start_seek-refused r from (inr (λ free. cc))
      | inl free ↦
          rw (start_seek-idle r from idle free)
            (refused (seek_target r from) (no_target from relative out))
    ]
  ]
    where
      no_target :
          (from : SeekFrom)
          → ((offset : ℕ) → from ≢ start offset)
          → ((target : ℕ) → meant r from ≡ pos target → u64_mod ≤ target)
          → (target : ℕ) → seek_target {E = E} r from ≢ ok target
      no_target (start offset) relative out target e = relative offset refl
      no_target (current delta) relative out target e =
          let (sum, fits) =
            (resolve_offset-ok_iff r.position delta _ target).0 (unfold seek_target in e) in
          absurd (omega (arith, out target sum))
      no_target (end delta) relative out target e =
          let (sum, fits) =
            (resolve_offset-ok_iff r.size delta _ target).0 (unfold seek_target in e) in
          absurd (omega (arith, out target sum))

      refused :
          (t : Result ℕ (IoError E))
          → ((target : ℕ) → t ≢ ok target)
          → ((set_target r t).0 ≡ r) × ((set_target r t).1 ≢ ok tt)
      refused (ok target) not_ok = absurd (not_ok target refl)
      refused (err error) not_ok = unfold set_target in (refl, λ e. cc)
