-- ===== src/Upload/Stream/Closing.antt =====
-- What a flush and a shutdown of `S3UploadWriter` hand to the channel.
use my_s.Base.{
  true, false, not, ap, none, [], Bytes, ◌≡◌, inl, inr, refl, append-nil, joined, is_empty, if-true,
  if-false, Bool-cases, ok, err, ready, waiting, arith,
}
use my_s.Upload.State.{mark_body_started, mark_body_ended}
use my_s.Upload.Writer.{
  S3UploadWriter, Reserve, Answers, Step, poll_send, poll_pending, start_send, settled,
  flush_settled, poll_flush, end_body, poll_shutdown,
}
use my_s.Upload.Invariant.{poll_pending-idle, poll_flush-done}
use my_s.Upload.Stream.{Follows, poll_send-Follows, poll_pending-Follows, ends-Follows}

module _ (E : Type 0) where
  flush_settled-Follows :
      (w : S3UploadWriter) (answer : Reserve) {offered : Bytes}
      → w.pending ≡ none
      → Follows offered w
      → Follows offered (flush_settled {E = E} w answer).0
  unfolding flush_settled start_send mark_body_started
  flush_settled-Follows w answer {offered} idle f = elim (Bool-cases w.state.upload_ended) [
    | inl gone ↦ rw (if-true _ _ gone) (ends-Follows E (Unit {0}) w f)
    | inr alive ↦ rw (if-false _ _ alive) (elim (Bool-cases (is_empty w.buffer)) [
      | inl none_left ↦ rw (if-true _ _ none_left) f
      | inr some_left ↦ rw (if-false _ _ some_left) (elim (Bool-cases w.sender) [
        | inl open_ ↦ rw (if-false _ _ (ap not open_), if-true _ _ open_) (sent alive)
        | inr shut ↦ rw (if-true _ _ (ap not shut)) f
      ])
    ])
  ]
    where
      sent :
          w.state.upload_ended ≡ false
          → Follows offered
              (poll_send {E = E}
                (record w { buffer = []; state = record (w.state) { body_started = true } })
                w.buffer
                answer).0
      sent alive =
          poll_send-Follows E
            (record w { buffer = []; state = record (w.state) { body_started = true } }) w.buffer
            answer
            (record {
              rest = [];
              order = ground (arith, f.order, f.kept, append-nil w.buffer);
              kept = inr refl;
            })

  pub poll_flush-Follows :
      (w : S3UploadWriter) (answers : Answers) {offered : Bytes}
      → Follows offered w
      → Follows offered (poll_flush {E = E} w answers).0
  unfolding poll_flush
  poll_flush-Follows w answers f =
      go (poll_pending w answers.held) (poll_pending-Follows E w answers.held f)
        (poll_pending-idle E w answers.held)
    where
      go :
          (s : Step E (Unit {0})) {offered : Bytes}
          → Follows offered s.0
          → (s.1 ≡ ready (ok tt) → s.0.pending ≡ none)
          → Follows offered (settled s (λ v. flush_settled {E = E} v answers.fresh)).0
      go (v, waiting) g idle = g
      go (v, ready (err x)) g idle = g
      go (v, ready (ok done)) g idle = flush_settled-Follows v answers.fresh (idle refl) g

  pub poll_shutdown-Follows :
      (w : S3UploadWriter) (answers : Answers) {offered : Bytes}
      → Follows offered w
      → Follows offered (poll_shutdown {E = E} w answers).0
  unfolding poll_shutdown end_body mark_body_ended
  poll_shutdown-Follows w answers f = elim (Bool-cases w.sender) [
    | inl open_ ↦ rw (ap not open_) (go (poll_flush w answers) (poll_flush-Follows w answers f))
    | inr shut ↦ rw (ap not shut) f
  ]
    where
      go :
          (s : Step E (Unit {0})) {offered : Bytes}
          → Follows offered s.0
          → Follows offered (settled s (end_body {E = E})).0
      go (v, waiting) g = g
      go (v, ready (err x)) g = g
      go (v, ready (ok done)) g = record { rest = g.rest; order = g.order; kept = g.kept }

  -- A shutdown that answers `Ok` on a writer that was still open has delivered all that was reported.
  pub poll_shutdown-delivers :
      (w : S3UploadWriter) (answers : Answers) {offered : Bytes}
      → w.sender ≡ true
      → Follows offered w
      → let s = poll_shutdown {E = E} w answers in
        s.1 ≡ ready (ok tt)
        → (joined s.0.body ≡ offered) × (s.0.state.body_ended ≡ true) × (s.0.sender ≡ false)
  unfolding poll_shutdown
  poll_shutdown-delivers w answers {offered} open_ f =
      rw (ap not open_)
        (go (poll_flush w answers) (poll_flush-Follows w answers f) (poll_flush-done E w answers))
    where
      go :
          (s : Step E (Unit {0}))
          → Follows offered s.0
          → (s.1 ≡ ready (ok tt)
              → (s.0.pending ≡ none) × (s.0.buffer ≡ []) × (s.0.state.upload_ended ≡ false))
          → let t = settled s (end_body {E = E}) in
            t.1 ≡ ready (ok tt)
            → (joined t.0.body ≡ offered) × (t.0.state.body_ended ≡ true) × (t.0.sender ≡ false)
      go (v, waiting) g done e = cc
      go (v, ready (err x)) g done e = cc
      go (v, ready (ok _)) g done e =
          unfold end_body mark_body_ended in
          let (idle, empty, alive) = done refl in
          (ground (arith, g.order, g.kept, append-nil (joined v.body)), refl, refl)
