-- ===== src/Upload/Delivery.antt =====
-- From the first write to the verdict: src/upload_writer.rs and src/upload_handle.rs together.
use my_s.Base.{
  ℕ, ◌+◌, ◌≤◌, ◌<◌, ◌≡◌, ◌∙◌, ◌≢◌, refl, ap, sym, subst, true, false, List, [], ◌∷◌, ◌++◌,
  append-nil, Bytes, length, length-append, joined, ready, ok, u64_mod, arith,
}
use my_s.Upload.State.{initial}
use my_s.Upload.Writer.{S3UploadWriter, Answers, new, poll_write, poll_flush, poll_shutdown}
use my_s.Upload.Invariant.{Inv}
use my_s.Upload.Count.{
  poll_write-count, poll_flush-accepted, poll_shutdown-accepted, poll_write-content_length,
  poll_flush-content_length, poll_shutdown-content_length,
}
use my_s.Upload.Run.{
  Call, write, flush, shutdown, handle_gone, step, taken, run, written, step-Inv, run-new-Inv,
  new-Inv, body-prefix,
}
use my_s.Upload.Handle.{S3UploadHandle, finish, dropped}
use my_s.Upload.Verdict.{finish-ok_iff}
use my_s.Upload.Calls.{poll_write-ended, poll_shutdown-ended}

module _ (E : Type 0) where
  pub step-count :
      (w : S3UploadWriter) (c : Call)
      → Inv w
      → length (taken E w c) + w.state.accepted ≤ (step E w c).state.accepted
  unfolding step taken
  step-count w (write answers buf) v = poll_write-count E w answers buf v
  step-count w (flush answers) v = omega (arith, poll_flush-accepted E w answers)
  step-count w (shutdown answers) v = omega (arith, poll_shutdown-accepted E w answers)
  step-count w handle_gone v = omega arith

  run-count :
      (w : S3UploadWriter) (cs : List Call)
      → Inv w
      → length (written E w cs) + w.state.accepted ≤ (run E w cs).state.accepted
  unfolding run written
  run-count w [] v = omega arith
  run-count w (c ∷ cs) v = omega (
    arith,
    step-count w c v,
    run-count (step E w c) cs (step-Inv E w c v),
    length-append (taken E w c) (written E (step E w c) cs),
  )

  pub step-content_length :
      (w : S3UploadWriter) (c : Call) → (step E w c).state.content_length ≡ w.state.content_length
  unfolding step
  step-content_length w (write answers buf) = poll_write-content_length E w answers buf
  step-content_length w (flush answers) = poll_flush-content_length E w answers
  step-content_length w (shutdown answers) = poll_shutdown-content_length E w answers
  step-content_length w handle_gone = refl

  run-content_length :
      (w : S3UploadWriter) (cs : List Call)
      → (run E w cs).state.content_length ≡ w.state.content_length
  unfolding run
  run-content_length w [] = refl
  run-content_length w (c ∷ cs) = run-content_length (step E w c) cs ∙ step-content_length w c

  -- A text whose first part is as long as the whole is that part.
  pub append_full : (xs rest : Bytes) → length (xs ++ rest) ≤ length xs → xs ++ rest ≡ xs
  append_full xs [] h = append-nil xs
  append_full xs (x ∷ rest) h = absurd (omega (arith, length-append xs (x ∷ rest)))

  -- If `finish` answers `Ok` after any history of the writer that shares its state, the channel has
  -- taken exactly the bytes that the writer reported as written, and they are as many as declared.
  pub finish-stored :
      (bucket_name key : Bytes) (content_length chunk_size : ℕ) (cs : List Call)
      (h : S3UploadHandle E)
      → content_length < u64_mod
      → chunk_size < u64_mod
      → let w = new bucket_name key content_length chunk_size in
        (run E w cs).state ≡ h.state
        → finish h ≡ ok tt
        → (joined (run E w cs).body ≡ written E w cs) × (length (written E w cs) ≡ content_length)
  unfolding new initial
  finish-stored bucket_name key content_length chunk_size cs h fits chunk shared done =
      let w = new bucket_name key content_length chunk_size in
      let v = run-new-Inv E bucket_name key content_length chunk_size cs fits chunk in
      let (rest, order) = body-prefix E bucket_name key content_length chunk_size cs in
      let same = run-content_length w cs in
      let count = run-count w cs (new-Inv E bucket_name key content_length chunk_size fits chunk) in
      let sent : (run E w cs).state.content_length ≤ (run E w cs).state.sent =
        subst (λ s. s.content_length ≤ s.sent) (sym shared) ((finish-ok_iff h).0 done).1 in
      let whole : length (written E w cs) ≤ length (joined (run E w cs).body) =
        omega (arith, v.delivered, v.within) in
      let equal : joined (run E w cs).body ≡ written E w cs = sym (
        order
        ∙ append_full _ rest
            (subst (λ t. length t ≤ length (joined (run E w cs).body)) order whole)) in
      (equal, omega (arith, ap length equal, v.delivered, v.within, v.budget))

  -- A handle that is dropped before its upload has finished cancels it for the writer: no later write
  -- of any byte succeeds, and neither does a flush or a shutdown.
  pub dropped-refuses :
      (h : S3UploadHandle E) (w : S3UploadWriter) (answers : Answers) (b : ℕ) (bs : Bytes) (n : ℕ)
      → w.sender ≡ true
      → let v = record w { state = (dropped h false).0 } in
        ((dropped h false).1 ≡ true)
        × ((poll_write {E = E} v answers (b ∷ bs)).1 ≢ ready (ok n))
        × ((poll_flush {E = E} v answers).1 ≢ ready (ok tt))
        × ((poll_shutdown {E = E} v answers).1 ≢ ready (ok tt))
  unfolding dropped
  dropped-refuses h w answers b bs n open_ =
      let v = record w { state = (dropped h false).0 } in
      let ended = poll_shutdown-ended E v answers open_ refl in
      (refl, (poll_write-ended E v answers b bs n refl).0, ended.0, ended.1)
