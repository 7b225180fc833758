-- ===== src/Upload/Run.antt =====
-- Any history of a writer of src/upload_writer.rs: its calls, and the handle that is dropped while
-- the upload still runs.
use my_s.Base.{
  ℕ, ◌<◌, ◌≡◌, refl, inl, inr, true, false, List, [], ◌∷◌, ◌++◌, append-nil, append_assoc, Bytes,
  joined, ready, ok, u64_mod, arith,
}
use my_s.Upload.State.{mark_upload_ended}
use my_s.Upload.Writer.{S3UploadWriter, Answers, new, poll_write, poll_flush, poll_shutdown}
use my_s.Upload.Invariant.{Inv, held, poll_write-Inv, poll_flush-Inv, poll_shutdown-Inv}
use my_s.Upload.Stream.{Follows, reported, poll_write-Follows}
use my_s.Upload.Stream.Closing.{poll_flush-Follows, poll_shutdown-Follows, poll_shutdown-delivers}

pub data Call : Type 0 where
  write : Answers → Bytes → Call
  flush shutdown : Answers → Call
  -- `S3UploadHandle` is dropped before its upload has finished.
  handle_gone : Call

module _ (E : Type 0) where
  unfoldable pub step : S3UploadWriter → Call → S3UploadWriter
  unfolding mark_upload_ended
  step w (write answers buf) = (poll_write {E = E} w answers buf).0
  step w (flush answers) = (poll_flush {E = E} w answers).0
  step w (shutdown answers) = (poll_shutdown {E = E} w answers).0
  step w handle_gone = record w { state = mark_upload_ended w.state }

  -- The bytes that the call reports as written.
  unfoldable pub taken : S3UploadWriter → Call → Bytes
  taken w (write answers buf) = reported (poll_write {E = E} w answers buf).1 buf
  taken w _ = []

  unfoldable pub run : S3UploadWriter → List Call → S3UploadWriter
  run w [] = w
  run w (c ∷ cs) = run (step w c) cs

  unfoldable pub written : S3UploadWriter → List Call → Bytes
  written w [] = []
  written w (c ∷ cs) = taken w c ++ written (step w c) cs

  pub step-Inv : (w : S3UploadWriter) (c : Call) → Inv w → Inv (step w c)
  unfolding step
  step-Inv w (write answers buf) v = poll_write-Inv E w answers buf v
  step-Inv w (flush answers) v = poll_flush-Inv E w answers v
  step-Inv w (shutdown answers) v = poll_shutdown-Inv E w answers v
  step-Inv w handle_gone v = record {
    chunk = v.chunk;
    chunk_fits = v.chunk_fits;
    declared = v.declared;
    within = v.within;
    budget = v.budget;
    exact = inl refl;
    delivered = v.delivered;
    closed = v.closed;
  }

  run-Inv : (w : S3UploadWriter) (cs : List Call) → Inv w → Inv (run w cs)
  unfolding run
  run-Inv w [] v = v
  run-Inv w (c ∷ cs) v = run-Inv (step w c) cs (step-Inv w c v)

  pub step-Follows :
      (w : S3UploadWriter) (c : Call) {offered : Bytes}
      → Follows offered w
      → Follows (offered ++ taken w c) (step w c)
  unfolding step taken
  step-Follows w (write answers buf) f = poll_write-Follows E w answers buf f
  step-Follows w (flush answers) f = rw append-nil (poll_flush-Follows E w answers f)
  step-Follows w (shutdown answers) f = rw append-nil (poll_shutdown-Follows E w answers f)
  step-Follows w handle_gone f =
      rw append-nil (record { rest = f.rest; order = f.order; kept = inl refl })

  run-Follows :
      (w : S3UploadWriter) (cs : List Call) {offered : Bytes}
      → Follows offered w
      → Follows (offered ++ written w cs) (run w cs)
  unfolding run written
  run-Follows w [] f = rw append-nil f
  run-Follows w (c ∷ cs) {offered} f =
      rw (← append_assoc offered (taken w c) (written (step w c) cs))
        (run-Follows (step w c) cs (step-Follows w c f))

  pub new-Inv :
      (bucket_name key : Bytes) (content_length chunk_size : ℕ)
      → content_length < u64_mod
      → chunk_size < u64_mod
      → Inv (new bucket_name key content_length chunk_size)
  unfolding new
  new-Inv bucket_name key content_length chunk_size h k = ground arith

  pub new-Follows :
      (bucket_name key : Bytes) (content_length chunk_size : ℕ)
      → Follows [] (new bucket_name key content_length chunk_size)
  unfolding new
  new-Follows bucket_name key content_length chunk_size = record {
    rest = [];
    order = refl;
    kept = inr refl;
  }

  -- Whatever a new writer is asked to do, and whatever the channel answers: it never accepts more than
  -- the declared length, its counters do not wrap, the count of sent bytes is the count of the bytes in
  -- the channel, the buffer stays short of a chunk, and until the upload ends every accepted byte is
  -- sent, held or buffered. A writer whose sender is gone has ended its body and holds nothing.
  pub run-new-Inv :
      (bucket_name key : Bytes) (content_length chunk_size : ℕ) (cs : List Call)
      → content_length < u64_mod
      → chunk_size < u64_mod
      → Inv (run (new bucket_name key content_length chunk_size) cs)
  run-new-Inv bucket_name key content_length chunk_size cs h k =
      run-Inv _ cs (new-Inv bucket_name key content_length chunk_size h k)

  -- What the channel has taken from a new writer is, after any history, a prefix of the bytes that the
  -- writer reported as written: no byte is reordered, repeated or made up.
  pub body-prefix :
      (bucket_name key : Bytes) (content_length chunk_size : ℕ) (cs : List Call)
      → let w = new bucket_name key content_length chunk_size in
        (rest : Bytes) × (written w cs ≡ joined (run w cs).body ++ rest)
  body-prefix bucket_name key content_length chunk_size cs =
      let f = run-Follows _ cs (new-Follows bucket_name key content_length chunk_size) in
      (held (run (new bucket_name key content_length chunk_size) cs).pending ++ f.rest, f.order)

  -- After any history of a new writer that is still open, a shutdown that answers `Ok` has handed
  -- exactly the reported bytes to the channel, and has ended the body.
  pub shutdown-delivers :
      (bucket_name key : Bytes) (content_length chunk_size : ℕ) (cs : List Call) (answers : Answers)
      → let w = new bucket_name key content_length chunk_size in
        let s = poll_shutdown {E = E} (run w cs) answers in
        (run w cs).sender ≡ true
        → s.1 ≡ ready (ok tt)
        → (joined s.0.body ≡ written w cs) × (s.0.state.body_ended ≡ true) × (s.0.sender ≡ false)
  shutdown-delivers bucket_name key content_length chunk_size cs answers open_ e =
      poll_shutdown-delivers E _ answers open_
        (run-Follows _ cs (new-Follows bucket_name key content_length chunk_size)) e
