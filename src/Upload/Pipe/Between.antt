-- ===== src/Upload/Pipe/Between.antt =====
-- A call of the writer of src/upload_writer.rs that sends twice is two calls: what happens between its
-- sends happens between the calls.
use my_s.Base.{
  ◌≡◌, refl, true, none, some, [], Bytes, ok, ready, inl, inr, Option-cases, ap, ◌∙◌, sym, subst,
  not, if-false,
}
use my_s.Upload.Writer.{
  S3UploadWriter, Reserve, full, room, closed, settled, poll_pending, poll_write, upload_is_gone,
  write_settled, flush_settled, end_body, poll_flush, poll_shutdown,
}

module _ (E : Type 0) where
  nothing_held :
      (w : S3UploadWriter) (answer : Reserve)
      → w.pending ≡ none
      → poll_pending {E = E} w answer ≡ (w, ready (ok tt))
  unfolding poll_pending
  nothing_held w answer e = rw e refl

  -- The held send of `w` is answered with `Ok`, and nothing else is done.
  abbrev SendsHeld : S3UploadWriter → Reserve → Type 0
  SendsHeld w held =
      let v = poll_write {E = E} w (record { held = held; fresh = full }) [] in
      (v.1 ≡ ready (ok 0)
        → (poll_pending {E = E} w held ≡ (v.0, ready (ok tt)))
          × (v.0.pending ≡ none)
          × (v.0.sender ≡ w.sender))

  with_none : (w : S3UploadWriter) (held : Reserve) → SendsHeld (record w { pending = none }) held
  unfolding poll_write poll_pending write_settled
  with_none w held done = (refl, refl, refl)

  with_some :
      (w : S3UploadWriter) (chunk : Bytes) (held : Reserve)
      → SendsHeld (record w { pending = some chunk }) held
  unfolding poll_write poll_pending write_settled upload_is_gone
  with_some w chunk full done = absurd cc
  with_some w chunk room done = (refl, refl, refl)
  with_some w chunk closed done = absurd cc

  held_apart : (w : S3UploadWriter) (held : Reserve) → SendsHeld w held
  held_apart w held = elim (Option-cases w.pending) [
    | inl e ↦ subst (λ p. SendsHeld (record w { pending = p }) held) (sym e) (with_none w held)
    | inr (chunk, e) ↦
        subst (λ p. SendsHeld (record w { pending = p }) held) (sym e) (with_some w chunk held)
  ]

  -- Where a call with an empty buffer answers `Ok`, a call is that one and then the call itself, for
  -- which nothing is held any more.
  poll_pending-apart :
      (w : S3UploadWriter) (held again fresh : Reserve) (buf : Bytes)
      → let v = poll_write {E = E} w (record { held = held; fresh = full }) [] in
        v.1 ≡ ready (ok 0)
        → (poll_write {E = E} w (record { held = held; fresh = fresh }) buf
            ≡ poll_write v.0 (record { held = again; fresh = fresh }) buf)
          × (poll_flush {E = E} w (record { held = held; fresh = fresh })
              ≡ poll_flush v.0 (record { held = again; fresh = fresh }))
          × (w.sender ≡ true
              → poll_shutdown {E = E} w (record { held = held; fresh = fresh })
                ≡ poll_shutdown v.0 (record { held = again; fresh = fresh }))
  unfolding poll_write poll_flush poll_shutdown
  poll_pending-apart w held again fresh buf done =
      let v = (poll_write {E = E} w (record { held = held; fresh = full }) []).0 in
      let (sends, free, same) = held_apart w held done in
      let once = sends ∙ sym (nothing_held v again free) in
      let flushes = ap (λ s. settled s (λ x. flush_settled x fresh)) once in
      (
        ap (λ s. settled s (λ x. write_settled x fresh buf)) once,
        flushes,
        (λ open_.
            if-false _ _ (ap not open_)
            ∙ ap (λ s. settled s end_body) flushes
            ∙ sym (if-false _ _ (ap not (same ∙ open_)))),
      )
