-- ===== src/Upload/Count.antt =====
-- What a writer reports as written is never more than what it has accepted.
use my_s.Base.{
  ℕ, ◌+◌, ◌≤◌, ◌<◌, ◌≡◌, ◌∙◌, inl, inr, refl, ◌++◌, Bytes, length, length-take, take, ltb, ◌==◌,
  if-true, if-false, Bool-cases, ready, waiting, ok, err, u64_mod, add_u64-exact, sub_u64,
  sub_u64-exact, arith,
}
use my_s.Upload.State.{mark_body_started, mark_body_ended, mark_upload_ended}
use my_s.Upload.Writer.{
  S3UploadWriter, Reserve, full, room, closed, Answers, Step, poll_send, poll_pending, start_send,
  wrote, fill, accept, write_settled, poll_write, settled, flush_settled, poll_flush, end_body,
  poll_shutdown, upload_is_gone, already_shut_down,
}
use my_s.Upload.Invariant.{Inv, poll_pending-Inv}
use my_s.Upload.Stream.{reported}

module _ (E : Type 0) where
  -- What an answer reports is within `n`.
  length-reported-wrote :
      (n : ℕ) (buf : Bytes) (s : Step E (Unit {0})) → length (reported (wrote n s).1 buf) ≤ n
  unfolding wrote
  length-reported-wrote n buf (w, ready (err e)) = omega arith
  length-reported-wrote n buf (w, ready (ok done)) = omega (arith, length-take n buf)
  length-reported-wrote n buf (w, waiting) = omega (arith, length-take n buf)

  poll_send-accepted :
      (w : S3UploadWriter) (chunk : Bytes) (answer : Reserve)
      → (poll_send {E = E} w chunk answer).0.state.accepted ≡ w.state.accepted
  unfolding poll_send upload_is_gone mark_upload_ended
  poll_send-accepted w chunk full = refl
  poll_send-accepted w chunk room = refl
  poll_send-accepted w chunk closed = refl

  poll_pending-accepted :
      (w : S3UploadWriter) (answer : Reserve)
      → (poll_pending {E = E} w answer).0.state.accepted ≡ w.state.accepted
  unfolding poll_pending
  poll_pending-accepted w answer = grind (arith, poll_send-accepted)

  wrote-accepted :
      (w : S3UploadWriter) (chunk : Bytes) (answer : Reserve) (n : ℕ)
      → (wrote n (start_send {E = E} w chunk answer)).0.state.accepted ≡ w.state.accepted
  unfolding wrote start_send poll_send already_shut_down upload_is_gone mark_body_started
  wrote-accepted w chunk answer n = ground arith

  fill-count :
      (w : S3UploadWriter) (answer : Reserve) (buf : Bytes) (n : ℕ)
      → w.state.accepted + n < u64_mod
      → let s = fill {E = E} w answer buf n in
        length (reported s.1 buf) + w.state.accepted ≤ s.0.state.accepted
  unfolding fill
  fill-count w answer buf n h =
      elim (Bool-cases (ltb (length (w.buffer ++ take n buf)) w.chunk_size)) [
        | inl small ↦
            rw (if-true _ _ small)
              (omega (arith, length-take n buf, add_u64-exact w.state.accepted n))
        | inr large ↦
            rw (if-false _ _ large, wrote-accepted)
              (omega (arith, length-reported-wrote n buf, add_u64-exact w.state.accepted n))
      ]

  accept-count :
      (w : S3UploadWriter) (answer : Reserve) (buf : Bytes)
      → Inv w
      → let s = accept {E = E} w answer buf (sub_u64 w.state.content_length w.state.accepted) in
        length (reported s.1 buf) + w.state.accepted ≤ s.0.state.accepted
  unfolding accept
  accept-count w answer buf v =
      elim (Bool-cases (sub_u64 w.state.content_length w.state.accepted == 0)) [
        | inl done ↦ rw (if-true _ _ done) (omega arith)
        | inr more ↦ rw (if-false _ _ more) (
            fill-count w answer buf _ (
              omega (
                arith,
                sub_u64-exact w.state.content_length w.state.accepted,
                v.within,
                v.declared,
              )))
      ]

  write_settled-count :
      (w : S3UploadWriter) (answer : Reserve) (buf : Bytes)
      → Inv w
      → let s = write_settled {E = E} w answer buf in
        length (reported s.1 buf) + w.state.accepted ≤ s.0.state.accepted
  unfolding write_settled upload_is_gone already_shut_down mark_upload_ended
  write_settled-count w answer buf v = ground (arith, accept-count w answer buf v)

  pub poll_write-count :
      (w : S3UploadWriter) (answers : Answers) (buf : Bytes)
      → Inv w
      → let s = poll_write {E = E} w answers buf in
        length (reported s.1 buf) + w.state.accepted ≤ s.0.state.accepted
  unfolding poll_write
  poll_write-count w answers buf v = omega (
    arith,
    poll_pending-accepted w answers.held,
    go (poll_pending w answers.held) (poll_pending-Inv E w answers.held v),
  )
    where
      go :
          (s : Step E (Unit {0}))
          → Inv s.0
          → let t = settled s (λ u. write_settled {E = E} u answers.fresh buf) in
            length (reported t.1 buf) + s.0.state.accepted ≤ t.0.state.accepted
      go (u, waiting) i = omega arith
      go (u, ready (err x)) i = omega arith
      go (u, ready (ok done)) i = write_settled-count u answers.fresh buf i

  pub poll_flush-accepted :
      (w : S3UploadWriter) (answers : Answers)
      → (poll_flush {E = E} w answers).0.state.accepted ≡ w.state.accepted
  unfolding poll_flush flush_settled start_send poll_send upload_is_gone already_shut_down
      mark_upload_ended mark_body_started
  poll_flush-accepted w answers =
      go (poll_pending w answers.held) ∙ poll_pending-accepted w answers.held
    where
      go :
          (s : Step E (Unit {0}))
          → (settled s (λ v. flush_settled {E = E} v answers.fresh)).0.state.accepted
            ≡ s.0.state.accepted
      go (u, waiting) = refl
      go (u, ready (err x)) = refl
      go (u, ready (ok done)) = ground arith

  pub poll_shutdown-accepted :
      (w : S3UploadWriter) (answers : Answers)
      → (poll_shutdown {E = E} w answers).0.state.accepted ≡ w.state.accepted
  unfolding poll_shutdown end_body mark_body_ended
  poll_shutdown-accepted w answers = ground (arith, poll_flush-accepted w answers)

  -- The declared length never changes.
  poll_pending-content_length :
      (w : S3UploadWriter) (answer : Reserve)
      → (poll_pending {E = E} w answer).0.state.content_length ≡ w.state.content_length
  unfolding poll_pending poll_send upload_is_gone mark_upload_ended
  poll_pending-content_length w answer = ground arith

  write_settled-content_length :
      (w : S3UploadWriter) (answer : Reserve) (buf : Bytes)
      → (write_settled {E = E} w answer buf).0.state.content_length ≡ w.state.content_length
  unfolding write_settled accept fill wrote start_send poll_send upload_is_gone already_shut_down
      mark_upload_ended mark_body_started
  write_settled-content_length w answer buf = ground arith

  flush_settled-content_length :
      (w : S3UploadWriter) (answer : Reserve)
      → (flush_settled {E = E} w answer).0.state.content_length ≡ w.state.content_length
  unfolding flush_settled start_send poll_send upload_is_gone already_shut_down mark_upload_ended
      mark_body_started
  flush_settled-content_length w answer = ground arith

  settled-content_length :
      {A : Type 0} (s : Step E (Unit {0})) (rest : S3UploadWriter → Step E A)
      → ((v : S3UploadWriter) → (rest v).0.state.content_length ≡ v.state.content_length)
      → (settled s rest).0.state.content_length ≡ s.0.state.content_length
  settled-content_length (w, waiting) rest same = refl
  settled-content_length (w, ready (err x)) rest same = refl
  settled-content_length (w, ready (ok done)) rest same = same w

  pub poll_write-content_length :
      (w : S3UploadWriter) (answers : Answers) (buf : Bytes)
      → (poll_write {E = E} w answers buf).0.state.content_length ≡ w.state.content_length
  unfolding poll_write
  poll_write-content_length w answers buf =
      settled-content_length (poll_pending w answers.held) _
        (λ v. write_settled-content_length v answers.fresh buf)
      ∙ poll_pending-content_length w answers.held

  pub poll_flush-content_length :
      (w : S3UploadWriter) (answers : Answers)
      → (poll_flush {E = E} w answers).0.state.content_length ≡ w.state.content_length
  unfolding poll_flush
  poll_flush-content_length w answers =
      settled-content_length (poll_pending w answers.held) _
        (λ v. flush_settled-content_length v answers.fresh)
      ∙ poll_pending-content_length w answers.held

  pub poll_shutdown-content_length :
      (w : S3UploadWriter) (answers : Answers)
      → (poll_shutdown {E = E} w answers).0.state.content_length ≡ w.state.content_length
  unfolding poll_shutdown end_body mark_body_ended
  poll_shutdown-content_length w answers = ground (arith, poll_flush-content_length w answers)
