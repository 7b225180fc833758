-- ===== src/Upload/Invariant.antt =====
-- The byte counts of `S3UploadWriter`, kept by every call.
use my_s.Base.{
  ℕ, ◌+◌, ◌-◌, ◌≤◌, ◌<◌, true, false, not, ap, Option, none, some, [], ◌∷◌, ◌++◌, Bytes, ◌≡◌, ◌⊎◌,
  inl, inr, refl, append-nil, length, length-append, length-take, joined, joined-append, take,
  Bool-cases, if-true, if-false, ltb, Option-cases, ok, err, ready, waiting, u64_mod, sub_u64,
  add_u64-exact, sub_u64-exact, ◌==◌, arith,
}
use my_s.Upload.State.{mark_body_started, mark_body_ended}
use my_s.Upload.Writer.{
  S3UploadWriter, Reserve, full, room, closed, Answers, Step, poll_send, poll_pending, start_send,
  wrote, fill, accept, write_settled, poll_write, settled, flush_settled, poll_flush, end_body,
  poll_shutdown,
}

-- The bytes of a send that is held.
abbrev pub held : Option Bytes → Bytes
held none = []
held (some chunk) = chunk

pub record Inv (w : S3UploadWriter) : Type 0 where
  pub chunk : length w.buffer < w.chunk_size
  pub chunk_fits : w.chunk_size < u64_mod
  pub declared : w.state.content_length < u64_mod
  pub within : w.state.accepted ≤ w.state.content_length
  pub budget : w.state.sent + length (held w.pending) + length w.buffer ≤ w.state.accepted
  -- Until the upload ends under the writer, nothing that it has accepted is lost.
  pub exact :
      (w.state.upload_ended ≡ true)
      ⊎ (w.state.sent + length (held w.pending) + length w.buffer ≡ w.state.accepted)
  pub delivered : length (joined w.body) ≡ w.state.sent
  -- Without a sender the body has ended, and nothing is held back.
  pub closed :
      (w.sender ≡ true) ⊎ ((w.pending ≡ none) × (w.buffer ≡ []) × (w.state.body_ended ≡ true))

module _ (E : Type 0) where
  poll_send-Inv :
      (w : S3UploadWriter) (chunk : Bytes) (answer : Reserve)
      → w.sender ≡ true
      → Inv (record w { pending = some chunk })
      → Inv (poll_send {E = E} w chunk answer).0
  unfolding poll_send
  poll_send-Inv w chunk full e v = v
  poll_send-Inv w chunk room e v = ground (
    arith,
    length-append (joined w.body) chunk,
    joined-append w.body (chunk ∷ []),
    append-nil chunk,
    add_u64-exact w.state.sent (length chunk),
  )
  poll_send-Inv w chunk closed e v = ground arith

  pub poll_pending-Inv :
      (w : S3UploadWriter) (answer : Reserve) → Inv w → Inv (poll_pending {E = E} w answer).0
  unfolding poll_pending
  poll_pending-Inv w answer v = elim (Option-cases w.pending) [
    | inl e ↦ rw (e, poll_pending) v
    | inr (c, e) ↦ rw (e, poll_pending) (poll_send-Inv w c answer (ground arith) (ground arith))
  ]

  start_send-Inv :
      (w : S3UploadWriter) (chunk : Bytes) (answer : Reserve)
      → w.sender ≡ true
      → Inv (record w { pending = some chunk })
      → Inv (start_send {E = E} w chunk answer).0
  unfolding start_send mark_body_started
  start_send-Inv w chunk answer e v =
      rw (if-true _ _ e) (
        poll_send-Inv (record w { state = mark_body_started w.state }) chunk answer e
          (ground arith))

  wrote-state : (n : ℕ) (s : Step E (Unit {0})) → (wrote n s).0 ≡ s.0
  unfolding wrote
  wrote-state n (w, ready (err e)) = refl
  wrote-state n (w, ready (ok done)) = refl
  wrote-state n (w, waiting) = refl

  fill-Inv :
      (w : S3UploadWriter) (answer : Reserve) (buf : Bytes) (n : ℕ)
      → Inv w
      → w.sender ≡ true
      → w.pending ≡ none
      → n ≤ length buf
      → n ≤ w.chunk_size - length w.buffer
      → n ≤ w.state.content_length - w.state.accepted
      → Inv (fill {E = E} w answer buf n).0
  unfolding fill
  fill-Inv w answer buf n v open_ idle have fits owed =
      elim (Bool-cases (ltb (length (w.buffer ++ take n buf)) w.chunk_size)) [
        | inl small ↦ rw (if-true _ _ small) (
            ground (
              arith,
              length-append w.buffer (take n buf),
              length-take n buf,
              add_u64-exact w.state.accepted n,
            ))
        | inr large ↦
            rw (if-false _ _ large, wrote-state)
              (start_send-Inv _ _ answer open_ (
                ground (
                  arith,
                  length-append w.buffer (take n buf),
                  length-take n buf,
                  add_u64-exact w.state.accepted n,
                )))
      ]

  accept-Inv :
      (w : S3UploadWriter) (answer : Reserve) (buf : Bytes)
      → Inv w
      → w.sender ≡ true
      → w.pending ≡ none
      → Inv (accept {E = E} w answer buf (sub_u64 w.state.content_length w.state.accepted)).0
  unfolding accept
  accept-Inv w answer buf v open_ idle =
      elim (Bool-cases (sub_u64 w.state.content_length w.state.accepted == 0)) [
        | inl done ↦ rw (if-true _ _ done) v
        | inr more ↦ rw (if-false _ _ more) (
            fill-Inv w answer buf _ v open_ idle (omega arith)
              (omega (arith, sub_u64-exact w.chunk_size (length w.buffer), v.chunk, v.chunk_fits))
              (omega (arith, sub_u64-exact w.state.content_length w.state.accepted)))
      ]

  write_settled-Inv :
      (w : S3UploadWriter) (answer : Reserve) (buf : Bytes)
      → Inv w
      → w.pending ≡ none
      → Inv (write_settled {E = E} w answer buf).0
  unfolding write_settled
  write_settled-Inv w answer buf v idle = ground (arith, accept-Inv w answer buf v)

  settled-Inv :
      {A : Type 0} (s : Step E (Unit {0})) (rest : S3UploadWriter → Step E A)
      → Inv s.0
      → (Inv s.0 → s.1 ≡ ready (ok tt) → Inv (rest s.0).0)
      → Inv (settled s rest).0
  settled-Inv (w, waiting) rest v k = v
  settled-Inv (w, ready (err e)) rest v k = v
  settled-Inv (w, ready (ok done)) rest v k = k v refl

  -- A send that is over is no longer held.
  pub poll_pending-idle :
      (w : S3UploadWriter) (answer : Reserve)
      → (poll_pending {E = E} w answer).1 ≡ ready (ok tt)
      → (poll_pending {E = E} w answer).0.pending ≡ none
  unfolding poll_pending poll_send
  poll_pending-idle w answer e = ground arith

  -- Every `poll_write` keeps the counts.
  pub poll_write-Inv :
      (w : S3UploadWriter) (answers : Answers) (buf : Bytes)
      → Inv w
      → Inv (poll_write {E = E} w answers buf).0
  unfolding poll_write
  poll_write-Inv w answers buf v =
      settled-Inv (poll_pending w answers.held) _ (poll_pending-Inv w answers.held v)
        (λ u e. write_settled-Inv _ answers.fresh buf u (poll_pending-idle w answers.held e))

  flush_settled-Inv :
      (w : S3UploadWriter) (answer : Reserve)
      → Inv w
      → w.pending ≡ none
      → Inv (flush_settled {E = E} w answer).0
  unfolding flush_settled
  flush_settled-Inv w answer v idle = elim (Bool-cases w.sender) [
    | inl e ↦ ground (arith, start_send-Inv (record w { buffer = [] }) w.buffer answer)
    | inr e ↦ ground arith
  ]

  pub poll_flush-Inv :
      (w : S3UploadWriter) (answers : Answers) → Inv w → Inv (poll_flush {E = E} w answers).0
  unfolding poll_flush
  poll_flush-Inv w answers v =
      settled-Inv (poll_pending w answers.held) _ (poll_pending-Inv w answers.held v)
        (λ u e. flush_settled-Inv _ answers.fresh u (poll_pending-idle w answers.held e))

  settled-done :
      {A : Type 0} (s : Step E (Unit {0})) (rest : S3UploadWriter → Step E A) {a : A}
      → (settled s rest).1 ≡ ready (ok a)
      → (s.1 ≡ ready (ok tt)) × (settled s rest ≡ rest s.0)
  settled-done (w, waiting) rest e = cc
  settled-done (w, ready (err x)) rest e = cc
  settled-done (w, ready (ok done)) rest e = (refl, refl)

  flush_settled-done :
      (w : S3UploadWriter) (answer : Reserve)
      → w.pending ≡ none
      → (flush_settled {E = E} w answer).1 ≡ ready (ok tt)
      → ((flush_settled {E = E} w answer).0.pending ≡ none)
        × ((flush_settled {E = E} w answer).0.buffer ≡ [])
        × ((flush_settled {E = E} w answer).0.state.upload_ended ≡ false)
  unfolding flush_settled start_send poll_send mark_body_started
  flush_settled-done w answer idle e = ground arith

  -- A flush that answers `Ok` has left nothing behind, and the upload was still there.
  pub poll_flush-done :
      (w : S3UploadWriter) (answers : Answers)
      → (poll_flush {E = E} w answers).1 ≡ ready (ok tt)
      → ((poll_flush {E = E} w answers).0.pending ≡ none)
        × ((poll_flush {E = E} w answers).0.buffer ≡ [])
        × ((poll_flush {E = E} w answers).0.state.upload_ended ≡ false)
  unfolding poll_flush
  poll_flush-done w answers e =
      let (over, same) =
        settled-done (poll_pending w answers.held) (λ v. flush_settled v answers.fresh) e in
      rw same
        (flush_settled-done _ answers.fresh (poll_pending-idle w answers.held over) (rw same at e))

  pub poll_shutdown-Inv :
      (w : S3UploadWriter) (answers : Answers) → Inv w → Inv (poll_shutdown {E = E} w answers).0
  unfolding poll_shutdown end_body mark_body_ended
  poll_shutdown-Inv w answers v = elim (Bool-cases w.sender) [
    | inl e ↦ rw (ap not e) (
        settled-Inv (poll_flush w answers) _ (poll_flush-Inv w answers v)
          (λ u over. ground (arith, poll_flush-done w answers over)))
    | inr e ↦ rw (ap not e) v
  ]
