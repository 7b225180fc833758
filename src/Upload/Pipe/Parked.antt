-- ===== src/Upload/Pipe/Parked.antt =====
-- What a call of the writer of src/upload_writer.rs does to the channel: it adds a chunk for each
-- permit, and a send that has to wait has set `body_started` first.
use my_s.Base.{
  ℕ, true, not, ap, none, List, [], ◌∷◌, ◌++◌, Bytes, ◌≡◌, ◌⊎◌, inl, inr, refl, take, length, ltb,
  ◌==◌, Bool-cases, if-true, if-false, Option-cases, ok, err, ready, waiting, arith, add_u64,
  is_empty,
}
use my_s.Upload.State.{mark_body_started, mark_body_ended, mark_upload_ended}
use my_s.Upload.Writer.{
  S3UploadWriter, Reserve, full, room, closed, Answers, Step, poll_send, poll_pending, start_send,
  wrote, fill, accept, write_settled, poll_write, settled, flush_settled, poll_flush, end_body,
  poll_shutdown, upload_is_gone, already_shut_down,
}

-- A chunk that the channel takes at this answer keeps `Q`.
abbrev pub Grants : (List Bytes → Type 0) → S3UploadWriter → Reserve → Type 0
Grants Q w answer = answer ≡ room → (chunk : Bytes) → Q (w.body ++ chunk ∷ [])

-- A held send has been announced, and the channel's chunks have the property `Q`.
pub record Parked (Q : List Bytes → Type 0) (w : S3UploadWriter) : Type 0 where
  pub announced : (w.pending ≡ none) ⊎ (w.state.body_started ≡ true)
  pub taken : Q w.body

module _ (E : Type 0) (Q : List Bytes → Type 0) where
  poll_send-Parked :
      (w : S3UploadWriter) (chunk : Bytes) (answer : Reserve)
      → w.state.body_started ≡ true
      → Q w.body
      → Grants Q w answer
      → Parked Q (poll_send {E = E} w chunk answer).0
  unfolding poll_send upload_is_gone mark_upload_ended
  poll_send-Parked w chunk full started q grants = record { announced = inr started; taken = q }
  poll_send-Parked w chunk room started q grants = record {
    announced = inl refl;
    taken = grants refl chunk;
  }
  poll_send-Parked w chunk closed started q grants = record { announced = inl refl; taken = q }

  pub poll_pending-Parked :
      (w : S3UploadWriter) (answer : Reserve)
      → Parked Q w
      → Grants Q w answer
      → Parked Q (poll_pending {E = E} w answer).0
  unfolding poll_pending
  poll_pending-Parked w answer p grants = elim (Option-cases w.pending) [
    | inl e ↦ rw (e, poll_pending) p
    | inr (c, e) ↦
        rw (e, poll_pending)
          (poll_send-Parked w c answer (ground (arith, p.announced)) p.taken grants)
  ]

  start_send-Parked :
      (w : S3UploadWriter) (chunk : Bytes) (answer : Reserve)
      → Parked Q w
      → Grants Q w answer
      → Parked Q (start_send {E = E} w chunk answer).0
  unfolding start_send already_shut_down mark_body_started
  start_send-Parked w chunk answer p grants = elim (Bool-cases w.sender) [
    | inl e ↦ rw (if-true _ _ e) (
        poll_send-Parked (record w { state = mark_body_started w.state }) chunk answer refl p.taken
          grants)
    | inr e ↦ rw (if-false _ _ e) p
  ]

  wrote-Parked : (n : ℕ) (s : Step E (Unit {0})) → Parked Q s.0 → Parked Q (wrote n s).0
  unfolding wrote
  wrote-Parked n (w, ready (err e)) p = p
  wrote-Parked n (w, ready (ok done)) p = p
  wrote-Parked n (w, waiting) p = p

  fill-Parked :
      (w : S3UploadWriter) (answer : Reserve) (buf : Bytes) (n : ℕ)
      → Parked Q w
      → Grants Q w answer
      → Parked Q (fill {E = E} w answer buf n).0
  unfolding fill
  fill-Parked w answer buf n p grants =
      elim (Bool-cases (ltb (length (w.buffer ++ take n buf)) w.chunk_size)) [
        | inl small ↦ rw (if-true _ _ small) (record { announced = p.announced; taken = p.taken })
        | inr large ↦
            let v : S3UploadWriter = record w {
              buffer = [];
              state = record (w.state) { accepted = add_u64 w.state.accepted n };
            } in
            rw (if-false _ _ large) (
              wrote-Parked n (start_send v (w.buffer ++ take n buf) answer) (
                start_send-Parked v (w.buffer ++ take n buf) answer
                  (record { announced = p.announced; taken = p.taken }) grants))
      ]

  gone-Parked :
      (A : Type 0) (w : S3UploadWriter) → Parked Q w → Parked Q (upload_is_gone {E = E} {A = A} w).0
  unfolding upload_is_gone mark_upload_ended
  gone-Parked A w p = record { announced = p.announced; taken = p.taken }

  accept-Parked :
      (w : S3UploadWriter) (answer : Reserve) (buf : Bytes) (owed : ℕ)
      → Parked Q w
      → Grants Q w answer
      → Parked Q (accept {E = E} w answer buf owed).0
  unfolding accept
  accept-Parked w answer buf owed p grants = elim (Bool-cases (owed == 0)) [
    | inl none_owed ↦ rw (if-true _ _ none_owed) p
    | inr more ↦ rw (if-false _ _ more) (fill-Parked w answer buf _ p grants)
  ]

  write_settled-Parked :
      (w : S3UploadWriter) (answer : Reserve) (buf : Bytes)
      → Parked Q w
      → Grants Q w answer
      → Parked Q (write_settled {E = E} w answer buf).0
  unfolding write_settled already_shut_down
  write_settled-Parked w answer [] p grants = p
  write_settled-Parked w answer (b ∷ buf) p grants = elim (Bool-cases w.sender) [
    | inr shut ↦ rw (ap not shut) p
    | inl there ↦ rw (ap not there) (elim (Bool-cases w.state.upload_ended) [
      | inl gone ↦ rw (if-true _ _ gone) (gone-Parked ℕ w p)
      | inr alive ↦ rw (if-false _ _ alive) (accept-Parked w answer (b ∷ buf) _ p grants)
    ])
  ]

  flush_settled-Parked :
      (w : S3UploadWriter) (answer : Reserve)
      → Parked Q w
      → Grants Q w answer
      → Parked Q (flush_settled {E = E} w answer).0
  unfolding flush_settled already_shut_down
  flush_settled-Parked w answer p grants = elim (Bool-cases w.state.upload_ended) [
    | inl gone ↦ rw (if-true _ _ gone) (gone-Parked (Unit {0}) w p)
    | inr alive ↦ rw (if-false _ _ alive) (elim (Bool-cases (is_empty w.buffer)) [
      | inl e ↦ rw (if-true _ _ e) p
      | inr more ↦ rw (if-false _ _ more) (elim (Bool-cases w.sender) [
        | inr shut ↦ rw (ap not shut) p
        | inl there ↦ rw (ap not there) (
            start_send-Parked (record w { buffer = [] }) w.buffer answer
              (record { announced = p.announced; taken = p.taken }) grants)
      ])
    ])
  ]

  settled-Parked :
      {A : Type 0} (s : Step E (Unit {0})) (rest : S3UploadWriter → Step E A)
      → Parked Q s.0
      → (Parked Q s.0 → Parked Q (rest s.0).0)
      → Parked Q (settled s rest).0
  settled-Parked (w, waiting) rest p k = p
  settled-Parked (w, ready (err e)) rest p k = p
  settled-Parked (w, ready (ok done)) rest p k = k p

  pub poll_write-Parked :
      (w : S3UploadWriter) (answers : Answers) (buf : Bytes)
      → Parked Q w
      → Grants Q w answers.held
      → Grants Q (poll_pending {E = E} w answers.held).0 answers.fresh
      → Parked Q (poll_write {E = E} w answers buf).0
  unfolding poll_write
  poll_write-Parked w answers buf p held fresh =
      settled-Parked (poll_pending w answers.held) _ (poll_pending-Parked w answers.held p held)
        (λ q. write_settled-Parked _ answers.fresh buf q fresh)

  pub poll_flush-Parked :
      (w : S3UploadWriter) (answers : Answers)
      → Parked Q w
      → Grants Q w answers.held
      → Grants Q (poll_pending {E = E} w answers.held).0 answers.fresh
      → Parked Q (poll_flush {E = E} w answers).0
  unfolding poll_flush
  poll_flush-Parked w answers p held fresh =
      settled-Parked (poll_pending w answers.held) _ (poll_pending-Parked w answers.held p held)
        (λ q. flush_settled-Parked _ answers.fresh q fresh)

  pub poll_shutdown-Parked :
      (w : S3UploadWriter) (answers : Answers)
      → Parked Q w
      → Grants Q w answers.held
      → Grants Q (poll_pending {E = E} w answers.held).0 answers.fresh
      → Parked Q (poll_shutdown {E = E} w answers).0
  unfolding poll_shutdown end_body mark_body_ended
  poll_shutdown-Parked w answers p held fresh = elim (Bool-cases w.sender) [
    | inr shut ↦ rw (ap not shut) p
    | inl there ↦ rw (ap not there) (
        settled-Parked (poll_flush w answers) _ (poll_flush-Parked w answers p held fresh)
          (λ q. record { announced = inr refl; taken = q.taken }))
  ]
