-- ===== src/Reader/History/Moves.antt =====
-- What the calls of `S3Reader` (src/reader.rs) do to the seek that is under way.
use my_s.Base.{
  ℕ, ◌<◌, ◌≡◌, ◌⊎◌, inl, inr, refl, ap, sym, ◌∙◌, ◌||◌, [], Option, none, some, Bytes, length,
  is_empty, leb, ◌==◌, if-true, if-false, Bool-cases, Option-cases, Result, Result-cases, ok, err,
  Poll, ready, waiting, u64_mod, pos, ◌+ℤ◌, arith, subst,
}
use my_s.Error.{S3Error, IoError, message, other}
use my_s.Reader.{
  S3Reader, PendingRead, SeekFrom, start, current, end, drain_leftover, take_body, poll_future,
  read_more, poll_read, seek_target, set_target, start_seek, poll_complete, in_flight_text,
  seeking_text,
}
use my_s.Reader.File.{At-nil, IsOpen}
use my_s.Reader.Seek.{start_seek-idle, resolve_offset-ok_iff}
use my_s.Reader.History.{starts_seek, IsFairCall, file_offset, IsSteady}

-- The reader that a completed seek leaves.
abbrev pub moved_to : S3Reader → ℕ → S3Reader
moved_to r aim = record r { position = aim; leftover = []; seek_to = none }

module _ (E : Type 0) where
  poll_future-seek_to :
      (r : S3Reader) (p : PendingRead) (remaining : ℕ) (outcome : Poll (Result Bytes (S3Error E)))
      → (poll_future r p remaining outcome).reader.seek_to ≡ r.seek_to
  unfolding poll_future take_body drain_leftover
  poll_future-seek_to r p remaining waiting = refl
  poll_future-seek_to r p remaining (ready (err error)) = refl
  poll_future-seek_to r p remaining (ready (ok body)) = ground arith

  read_more-seek_to :
      (r : S3Reader) (flight : Option PendingRead) (remaining : ℕ)
      (outcome : Poll (Result Bytes (S3Error E)))
      → (read_more r flight remaining outcome).reader.seek_to ≡ r.seek_to
  unfolding read_more
  read_more-seek_to r (some p) remaining outcome =
      poll_future-seek_to (record r { pending = none }) p remaining outcome
  read_more-seek_to r none remaining outcome =
      elim (Bool-cases (leb r.size r.position || remaining == 0)) [
        | inl over ↦ rw (if-true _ _ over) refl
        | inr more ↦ rw (if-false _ _ more) (poll_future-seek_to _ _ remaining outcome)
      ]

  pub poll_read-seek_to :
      (r : S3Reader) (remaining : ℕ) (outcome : Poll (Result Bytes (S3Error E)))
      → (poll_read r remaining outcome).reader.seek_to ≡ r.seek_to
  unfolding poll_read drain_leftover
  poll_read-seek_to r remaining outcome = elim (Bool-cases (is_empty r.leftover)) [
    | inl empty ↦ rw (if-true _ _ empty) (read_more-seek_to r r.pending remaining outcome)
    | inr full ↦ rw (if-false _ _ full) refl
  ]

  seek_target-means :
      (object : Bytes) (r : S3Reader) (from : SeekFrom) (aim : ℕ)
      → r.size ≡ length object
      → IsFairCall E object r (starts_seek from)
      → seek_target {E = E} r from ≡ ok aim
      → (file_offset E (length object) r.position from ≡ pos aim) × (aim < u64_mod)
  unfolding seek_target
  seek_target-means object r (start offset) aim whole fair e =
      (cc, subst (◌< u64_mod) (same e) fair)
    where
      same : ◌≡◌ {A = Result ℕ (IoError E)} (ok offset) (ok aim) → offset ≡ aim
      same e = cc
  seek_target-means object r (current delta) aim whole fair e =
      (resolve_offset-ok_iff E r.position delta _ aim).0 e
  seek_target-means object r (end delta) aim whole fair e =
      let (sum, small) = (resolve_offset-ok_iff E r.size delta _ aim).0 e in
      (ap (λ n. pos n +ℤ delta) (sym whole) ∙ sum, small)

  -- A seek is accepted on an idle reader, or it changes nothing.
  pub start_seek_cases :
      (object : Bytes) (r : S3Reader) (from : SeekFrom)
      → r.size ≡ length object
      → IsFairCall E object r (starts_seek from)
      → ((aim : ℕ) × (start_seek {E = E} r from ≡ (record r { seek_to = some aim }, ok tt))
          × (r.pending ≡ none)
          × (r.seek_to ≡ none)
          × (file_offset E (length object) r.position from ≡ pos aim)
          × (aim < u64_mod))
        ⊎ ((error : IoError E) × (start_seek {E = E} r from ≡ (r, err error)))
  unfolding start_seek set_target
  start_seek_cases object r from whole fair = elim (Option-cases r.pending) [
    | inr (p, e) ↦ inr (message other in_flight_text, ground arith)
    | inl idle ↦ elim (Option-cases r.seek_to) [
      | inr (aim, e) ↦ inr (message other seeking_text, ground arith)
      | inl free ↦ elim (Result-cases (seek_target {E = E} r from)) [
        | inl (aim, e) ↦
            let (means, small) = seek_target-means object r from aim whole fair e in
            inl (
              aim,
              start_seek-idle E r from idle free ∙ ap (set_target r) e,
              idle,
              free,
              means,
              small,
            )
        | inr (error, e) ↦ inr (error, start_seek-idle E r from idle free ∙ ap (set_target r) e)
      ]
    ]
  ]

  pub poll_complete-none : (r : S3Reader) → r.seek_to ≡ none → poll_complete r ≡ (r, r.position)
  unfolding poll_complete
  poll_complete-none r free = rw free refl

  pub poll_complete-some :
      (r : S3Reader) (aim : ℕ) → r.seek_to ≡ some aim → poll_complete r ≡ (moved_to r aim, aim)
  unfolding poll_complete
  poll_complete-some r aim busy = rw busy refl

  pub seeking-IsSteady :
      (object : Bytes) (r : S3Reader) (aim : ℕ)
      → IsOpen object r
      → r.pending ≡ none
      → aim < u64_mod
      → IsSteady E object (record r { seek_to = some aim })
  seeking-IsSteady object r aim o idle small = record {
    opened = record {
      whole = o.whole;
      fits = o.fits;
      offset = o.offset;
      left = o.left;
      left_inside = o.left_inside;
      flight = o.flight;
    };
    seeking = inr (aim, refl, small, idle);
  }

  aimed :
      (object : Bytes) (r : S3Reader) (aim : ℕ)
      → IsSteady E object r
      → r.seek_to ≡ some aim
      → (r.pending ≡ none) × (aim < u64_mod)
  aimed object r aim steady busy = elim steady.seeking [
    | inl free ↦ absurd cc
    | inr (found, e, small, idle) ↦ (idle, ground arith)
  ]

  pub moved_to-IsSteady :
      (object : Bytes) (r : S3Reader) (aim : ℕ)
      → IsSteady E object r
      → r.seek_to ≡ some aim
      → IsSteady E object (moved_to r aim)
  moved_to-IsSteady object r aim steady busy =
      let o = steady.opened in
      let (idle, small) = aimed object r aim steady busy in
      record {
        opened = record {
          whole = o.whole;
          fits = o.fits;
          offset = small;
          left = At-nil object aim;
          left_inside = inl refl;
          flight = inl idle;
        };
        seeking = inl refl;
      }
