-- ===== src/Upload/Calls.antt =====
-- The answers of the calls of `S3UploadWriter`, branch by branch.
use my_s.Base.{
  ℕ, ◌+◌, ◌-◌, ◌<◌, ◌≡◌, ◌≢◌, inl, inr, refl, ◌∙◌, true, false, not, ap, none, [], ◌∷◌, ◌++◌, Bytes,
  length, take, min, ltb, ◌==◌, if-true, if-false, Bool-cases, ready, waiting, ok, err, add_u64,
  add_u64-exact, sub_u64, sub_u64-exact, arith,
}
use my_s.Error.{message, invalid_input}
use my_s.Upload.State.{mark_body_started}
use my_s.Upload.Writer.{
  S3UploadWriter, Reserve, full, room, closed, Answers, Step, poll_send, poll_pending, start_send,
  wrote, fill, accept, write_settled, poll_write, settled, flush_settled, poll_flush, poll_shutdown,
  upload_is_gone, already_shut_down, past_end_text,
}
use my_s.Upload.Invariant.{Inv}

module _ (E : Type 0) where
  wrote-ne-waiting : (n : ℕ) (s : Step E (Unit {0})) → (wrote n s).1 ≢ waiting
  unfolding wrote
  wrote-ne-waiting n (w, ready (err e)) h = cc
  wrote-ne-waiting n (w, ready (ok done)) h = cc
  wrote-ne-waiting n (w, waiting) h = cc

  write_settled-ne-waiting :
      (w : S3UploadWriter) (answer : Reserve) (buf : Bytes)
      → (write_settled {E = E} w answer buf).1 ≢ waiting
  unfolding write_settled accept fill upload_is_gone already_shut_down
  write_settled-ne-waiting w answer buf h = grind (arith, wrote-ne-waiting)

  poll_pending-waiting :
      (w : S3UploadWriter) (answer : Reserve)
      → (poll_pending {E = E} w answer).1 ≡ waiting
      → ((poll_pending {E = E} w answer).0 ≡ w) × (w.pending ≢ none) × (answer ≡ full)
  unfolding poll_pending poll_send upload_is_gone
  poll_pending-waiting w answer e = ground arith

  -- A `poll_write` that answers `Pending` has consumed nothing and changed nothing: the send that an
  -- earlier call left over is still waiting.
  pub poll_write-waiting :
      (w : S3UploadWriter) (answers : Answers) (buf : Bytes)
      → (poll_write {E = E} w answers buf).1 ≡ waiting
      → ((poll_write {E = E} w answers buf).0 ≡ w) × (w.pending ≢ none) × (answers.held ≡ full)
  unfolding poll_write
  poll_write-waiting w answers buf e =
      go (poll_pending w answers.held) e (poll_pending-waiting w answers.held)
    where
      go :
          (s : Step E (Unit {0}))
          → (settled s (λ v. write_settled {E = E} v answers.fresh buf)).1 ≡ waiting
          → (s.1 ≡ waiting → (s.0 ≡ w) × (w.pending ≢ none) × (answers.held ≡ full))
          → ((settled s (λ v. write_settled {E = E} v answers.fresh buf)).0 ≡ w)
            × (w.pending ≢ none)
            × (answers.held ≡ full)
      go (v, waiting) h still = still refl
      go (v, ready (err x)) h still = cc
      go (v, ready (ok done)) h still = absurd (write_settled-ne-waiting v answers.fresh buf h)

  -- The end of `poll_write` on a chunk that the channel has not refused.
  wrote-open :
      (w : S3UploadWriter) (chunk : Bytes) (answer : Reserve) (n : ℕ)
      → w.sender ≡ true
      → answer ≢ closed
      → ((wrote n (start_send {E = E} w chunk answer)).1 ≡ ready (ok n))
        × ((wrote n (start_send {E = E} w chunk answer)).0.state.accepted ≡ w.state.accepted)
  unfolding wrote start_send poll_send mark_body_started
  wrote-open w chunk full n e h = ground arith
  wrote-open w chunk room n e h = ground arith
  wrote-open w chunk closed n e h = absurd (h refl)

  fill-progress :
      (w : S3UploadWriter) (answer : Reserve) (buf : Bytes) (n : ℕ)
      → w.sender ≡ true
      → answer ≢ closed
      → ((fill {E = E} w answer buf n).1 ≡ ready (ok n))
        × ((fill {E = E} w answer buf n).0.state.accepted ≡ add_u64 w.state.accepted n)
  unfolding fill
  fill-progress w answer buf n e h =
      elim (Bool-cases (ltb (length (w.buffer ++ take n buf)) w.chunk_size)) [
        | inl small ↦ rw (if-true _ _ small) (refl, refl)
        | inr large ↦ rw (if-false _ _ large) (
            wrote-open
              (record w {
                buffer = [];
                state = record (w.state) { accepted = add_u64 w.state.accepted n };
              })
              _ answer n e h)
      ]

  -- What `poll_write` takes: as much as there is, as fits in the chunk, and as is still owed.
  abbrev pub room_for : S3UploadWriter → Bytes → ℕ
  room_for w buf =
      min (min (length buf) (w.chunk_size - length w.buffer))
        (w.state.content_length - w.state.accepted)

  poll_write-accept :
      (w : S3UploadWriter) (answers : Answers) (b : ℕ) (bs : Bytes)
      → w.pending ≡ none
      → w.sender ≡ true
      → w.state.upload_ended ≡ false
      → poll_write {E = E} w answers (b ∷ bs)
        ≡ accept w answers.fresh (b ∷ bs) (sub_u64 w.state.content_length w.state.accepted)
  unfolding poll_write poll_pending write_settled
  poll_write-accept w answers b bs idle open_ alive =
      rw (poll_pending-none) (rw (if-false _ _ (ap not open_), if-false _ _ alive))
    where
      poll_pending-none : poll_pending {E = E} w answers.held ≡ (w, ready (ok tt))
      poll_pending-none = ground arith

  -- On an open upload that is still owed bytes, a `poll_write` of some bytes takes at least one, and
  -- exactly as many as there are, as fit in the chunk, and as are owed, unless the channel is closed.
  pub poll_write-progress :
      (w : S3UploadWriter) (answers : Answers) (b : ℕ) (bs : Bytes)
      → Inv w
      → w.pending ≡ none
      → w.sender ≡ true
      → w.state.upload_ended ≡ false
      → w.state.accepted < w.state.content_length
      → answers.fresh ≢ closed
      → let s = poll_write {E = E} w answers (b ∷ bs) in
        (s.1 ≡ ready (ok (room_for w (b ∷ bs))))
        × (0 < room_for w (b ∷ bs))
        × (s.0.state.accepted ≡ w.state.accepted + room_for w (b ∷ bs))
  unfolding accept
  poll_write-progress w answers b bs v idle open_ alive owes h =
      rw
        (
          poll_write-accept w answers b bs idle open_ alive,
          sub_u64-exact _ _ v.within v.declared,
          if-false _ _ more,
          sub_u64-exact w.chunk_size (length w.buffer) (omega (arith, v.chunk)) v.chunk_fits,
        )
        (let (answer, count) =
            fill-progress w answers.fresh (b ∷ bs) (room_for w (b ∷ bs)) open_ h in
          (
            answer,
            omega (arith, v.chunk),
            count ∙ add_u64-exact w.state.accepted (room_for w (b ∷ bs)) (omega arith),
          ))
    where
      more : (w.state.content_length - w.state.accepted == 0) ≡ false
      more = ground arith

  -- Past the declared length every byte is refused with `InvalidInput`, and nothing changes.
  pub poll_write-past_end :
      (w : S3UploadWriter) (answers : Answers) (b : ℕ) (bs : Bytes)
      → Inv w
      → w.pending ≡ none
      → w.sender ≡ true
      → w.state.upload_ended ≡ false
      → w.state.accepted ≡ w.state.content_length
      → poll_write {E = E} w answers (b ∷ bs)
        ≡ (w, ready (err (message invalid_input (past_end_text w (b ∷ bs)))))
  unfolding accept
  poll_write-past_end w answers b bs v idle open_ alive owes =
      rw (poll_write-accept w answers b bs idle open_ alive, if-true _ _ done)
    where
      done : (sub_u64 w.state.content_length w.state.accepted == 0) ≡ true
      done = ground (arith, sub_u64-exact w.state.content_length w.state.accepted)

  -- Once the upload has ended under the writer, no write of any byte succeeds and nothing is buffered.
  pub poll_write-ended :
      (w : S3UploadWriter) (answers : Answers) (b : ℕ) (bs : Bytes) (n : ℕ)
      → w.state.upload_ended ≡ true
      → let s = poll_write {E = E} w answers (b ∷ bs) in
        (s.1 ≢ ready (ok n)) × (s.0.buffer ≡ w.buffer) × (s.0.state.upload_ended ≡ true)
  unfolding poll_write poll_pending poll_send write_settled upload_is_gone already_shut_down
  poll_write-ended w answers b bs n gone = ground arith

  -- Nor does a flush, nor a shutdown of a writer that is still open.
  pub poll_shutdown-ended :
      (w : S3UploadWriter) (answers : Answers)
      → w.sender ≡ true
      → w.state.upload_ended ≡ true
      → ((poll_flush {E = E} w answers).1 ≢ ready (ok tt))
        × ((poll_shutdown {E = E} w answers).1 ≢ ready (ok tt))
        × ((poll_shutdown {E = E} w answers).0.sender ≡ true)
  unfolding poll_shutdown poll_flush poll_pending poll_send flush_settled upload_is_gone
  poll_shutdown-ended w answers open_ gone = ground arith
