-- ===== src/Reader/File/OnePoll.antt =====
-- One poll of a read of src/reader.rs gives the bytes at the position.
use my_s.Base.{
  ℕ, ◌+◌, ◌≤◌, ◌<◌, ◌≡◌, ◌≢◌, ◌⊎◌, inl, inr, refl, sym, ap, subst, ◌∙◌, min, true, ◌||◌, [], Option,
  none, some, Bytes, length, length-drop, take, drop, is_empty, ltb, leb, ◌==◌, if-true, if-false,
  Bool-cases, Result, ok, err, Poll, ready, waiting, add_u64, add_u64-exact, arith,
}
use native.Mathlib.Decide.{dec_le}
use my_s.Error.{S3Error, IoError}
use my_s.Reader.{
  S3Reader, PendingRead, start_read, drain_leftover, take_body, poll_future, read_more, poll_read,
  nothing,
}
use my_s.Reader.File.{
  At, IsPending, IsOpen, Honest, ReadsAt, driven, At-take, At-drop, At-nil, start_read-IsPending,
  length-pos, length-take_le, is_empty→nil, not_empty→ne_nil,
}

module _ (E : Type 0) (object : Bytes) where
  drain_leftover-ReadsAt :
      (r : S3Reader) (remaining : ℕ)
      → IsOpen object r
      → r.pending ≡ none
      → r.leftover ≢ []
      → ReadsAt {E = E} object r.position remaining (drain_leftover r remaining)
  unfolding drain_leftover
  drain_leftover-ReadsAt r remaining o idle some_left = record {
    put_at = At-take object r.position n r.leftover low o.left;
    within = omega (arith, count);
    moved = step ∙ ap (λ k. r.position + k) (sym count);
    opened = record {
      whole = o.whole;
      fits = o.fits;
      offset = omega (arith, step, inside, o.fits);
      left =
          subst (λ k. At object k (drop n r.leftover)) (sym step)
            (At-drop object r.position n r.leftover low o.left);
      left_inside = inr (omega (arith, step, inside, length-drop n r.leftover));
      flight = inl idle;
    };
    progress = inr (elim enough [ inl a ↦ inl a | inr a ↦ inr (inr a) ]);
  }
    where
      n : ℕ
      n = min (length r.leftover) remaining

      low : n ≤ length r.leftover
      low = omega arith

      count : length (take n r.leftover) ≡ n
      count = length-take_le n r.leftover low

      inside : r.position + length r.leftover ≤ length object
      inside = elim o.left_inside [ inl e ↦ absurd (some_left e) | inr h ↦ h ]

      step : add_u64 r.position n ≡ r.position + n
      step = add_u64-exact r.position n (omega (arith, inside, o.fits))

      enough : (remaining ≡ 0) ⊎ (0 < length (take n r.leftover))
      enough = ground (arith, count, length-pos r.leftover some_left)

  nothing-ReadsAt :
      (r : S3Reader) (remaining : ℕ) (answer : Poll (Result (Unit {0}) (IoError E)))
      → IsOpen object r
      → (length object ≤ r.position) ⊎ (remaining ≡ 0) ⊎ (answer ≢ ready (ok tt))
      → ReadsAt {E = E} object r.position remaining (nothing r answer)
  nothing-ReadsAt r remaining answer o idle = record {
    put_at = At-nil object r.position;
    within = omega arith;
    moved = omega arith;
    opened = o;
    progress = elim idle [
      | inl a ↦ inl a
      | inr (inl a) ↦ inr (inl a)
      | inr (inr a) ↦ inr (inr (inl a))
    ];
  }

  -- The reader whose slot has been cleared for a poll of `p`.
  take_body-ReadsAt :
      (r : S3Reader) (p : PendingRead) (remaining : ℕ) (body : Bytes)
      → IsOpen object r
      → r.pending ≡ none
      → r.leftover ≡ []
      → IsPending object r.position p
      → (length body ≡ p.requested → At object p.start body)
      → ReadsAt {E = E} object r.position remaining (take_body r p remaining body)
  unfolding take_body
  take_body-ReadsAt r p remaining body o idle empty i honest =
      elim (Bool-cases (ltb (length body) p.requested)) [
        | inl short ↦ rw (if-true _ _ short) (nothing-ReadsAt r remaining _ o (inr (inr (λ e. cc))))
        | inr enough ↦ rw (if-false _ _ enough) (elim (Bool-cases (ltb p.requested (length body))) [
          | inl long ↦ rw (if-true _ _ long) (nothing-ReadsAt r remaining _ o (inr (inr (λ e. cc))))
          | inr right ↦ rw (if-false _ _ right) (exact (ground arith))
        ])
      ]
    where
      exact :
          length body ≡ p.requested
          → ReadsAt {E = E} object r.position remaining
              (drain_leftover (record r { leftover = body }) remaining)
      exact same =
          drain_leftover-ReadsAt (record r { leftover = body }) remaining
            (record {
              whole = o.whole;
              fits = o.fits;
              offset = o.offset;
              left = subst (λ k. At object k body) i.from (honest same);
              left_inside = inr (omega (arith, i.inside));
              flight = inl idle;
            })
            idle (λ e. absurd (omega (arith, ap length e, i.some_bytes)))

  poll_future-ReadsAt :
      (r : S3Reader) (p : PendingRead) (remaining : ℕ) (outcome : Poll (Result Bytes (S3Error E)))
      → IsOpen object r
      → r.pending ≡ none
      → r.leftover ≡ []
      → IsPending object r.position p
      → Honest object p outcome
      → ReadsAt {E = E} object r.position remaining (poll_future r p remaining outcome)
  unfolding poll_future
  poll_future-ReadsAt r p remaining waiting o idle empty i honest =
      nothing-ReadsAt (record r { pending = some p }) remaining waiting
        (record {
          whole = o.whole;
          fits = o.fits;
          offset = o.offset;
          left = o.left;
          left_inside = o.left_inside;
          flight = inr (p, refl, i, empty);
        })
        (inr (inr (λ e. cc)))
  poll_future-ReadsAt r p remaining (ready (err error)) o idle empty i honest =
      nothing-ReadsAt r remaining _ o (inr (inr (λ e. cc)))
  poll_future-ReadsAt r p remaining (ready (ok body)) o idle empty i honest =
      take_body-ReadsAt r p remaining body o idle empty i honest

  -- With the slot cleared.
  idle-IsOpen : (r : S3Reader) → IsOpen object r → IsOpen object (record r { pending = none })
  idle-IsOpen r o = record {
    whole = o.whole;
    fits = o.fits;
    offset = o.offset;
    left = o.left;
    left_inside = o.left_inside;
    flight = inl refl;
  }

  flight-IsPending :
      (r : S3Reader) (p : PendingRead)
      → IsOpen object r
      → r.pending ≡ some p
      → IsPending object r.position p
  flight-IsPending r p o e = elim o.flight [
    | inl idle ↦ cc
    | inr (q, f, i, _) ↦ let same : q ≡ p = cc in subst (IsPending object r.position) same i
  ]

  read_more-ReadsAt :
      (r : S3Reader) (q : Option PendingRead) (remaining : ℕ)
      (outcome : Poll (Result Bytes (S3Error E)))
      → IsOpen object r
      → r.leftover ≡ []
      → r.pending ≡ q
      → Honest object (driven r remaining q) outcome
      → ReadsAt {E = E} object r.position remaining (read_more r q remaining outcome)
  unfolding read_more
  read_more-ReadsAt r (some p) remaining outcome o empty e honest =
      poll_future-ReadsAt (record r { pending = none }) p remaining outcome (idle-IsOpen r o) refl
        empty (flight-IsPending r p o e) honest
  read_more-ReadsAt r none remaining outcome o empty e honest =
      elim (Bool-cases (leb r.size r.position || remaining == 0)) [
        | inl done ↦ rw (if-true _ _ done) (nothing-ReadsAt r remaining _ o (at_end done))
        | inr more ↦ rw (if-false _ _ more) (
            poll_future-ReadsAt (record r { pending = none }) (start_read r remaining) remaining
              outcome (idle-IsOpen r o) refl empty
              (start_read-IsPending object r remaining o (ground arith) (ground arith)) honest)
      ]
    where
      at_end :
          (leb r.size r.position || remaining == 0) ≡ true
          → (length object ≤ r.position)
            ⊎ (remaining ≡ 0)
            ⊎ (◌≢◌ {A = Poll (Result (Unit {0}) (IoError E))} (ready (ok tt)) (ready (ok tt)))
      at_end done = elim (dec_le r.size r.position) [
        | yes past ↦ inl (omega (arith, o.whole))
        | no before ↦ inr (inl (ground arith))
      ]

  -- One poll of a read, whatever buffer it is handed and however the request in flight answers: the
  -- bytes that it puts into the buffer are those that the object holds at the position, no more than
  -- fit, the position moves by exactly as many, and nothing that was fetched is lost. In front of the
  -- end, with room in the buffer, an `Ok` has put at least one byte. The storage is assumed to answer
  -- a body of the requested length only with the bytes of that range.
  pub poll_read-ReadsAt :
      (r : S3Reader) (remaining : ℕ) (outcome : Poll (Result Bytes (S3Error E)))
      → IsOpen object r
      → Honest object (driven r remaining r.pending) outcome
      → ReadsAt {E = E} object r.position remaining (poll_read r remaining outcome)
  unfolding poll_read
  poll_read-ReadsAt r remaining outcome o honest = elim (Bool-cases (is_empty r.leftover)) [
    | inl empty ↦ rw (if-true _ _ empty) (
        read_more-ReadsAt r r.pending remaining outcome o (is_empty→nil r.leftover empty) refl
          honest)
    | inr full ↦ rw (if-false _ _ full) (
        drain_leftover-ReadsAt r remaining o (idle (not_empty→ne_nil r.leftover full))
          (not_empty→ne_nil r.leftover full))
  ]
    where
      idle : r.leftover ≢ [] → r.pending ≡ none
      idle some_left = elim o.flight [ inl h ↦ h | inr (p, _, _, empty) ↦ absurd (some_left empty) ]
