-- ===== src/Upload/Pipe/Safety.antt =====
-- What the handle of src/upload_handle.rs may say once the task of src/s3_client.rs has ended.
use my_s.Base.{
  ℕ, ◌+◌, ◌≤◌, ◌<◌, ◌≡◌, ◌↔◌, refl, ap, sym, ◌∙◌, List, [], ◌∷◌, ◌++◌, Bytes, joined, length,
  length-append, append_assoc, Result, ok, arith, zero, suc, u64_mod,
}
use my_s.Error.{S3Error}
use my_s.Upload.Writer.{bytes_written}
use my_s.Upload.Delivery.{append_full}
use my_s.Upload.Handle.{S3UploadHandle, finish, bytes_sent}
use my_s.Upload.Verdict.{finish-ok_iff}
use my_s.Upload.Pipe.{
  System, Task, ended, count, first, body_received, Reach, started, upload_channel_capacity,
}
use my_s.Upload.Pipe.Invariant.{IsSound}
use my_s.Upload.Pipe.Steps.{reach-IsSound, started-IsSound}

-- The handle, once its task has come to `result`.
abbrev pub settled_handle :
    {E : Type 0} → System E → Result (Unit {0}) (S3Error E) → S3UploadHandle E
settled_handle s result = record {
  upload = ok result;
  state = s.writer.state;
  bucket_name = s.writer.bucket_name;
  key = s.writer.key;
}

joined-first :
    (n : ℕ) (cs : List Bytes) → (rest : Bytes) × (joined cs ≡ joined (first n cs) ++ rest)
joined-first zero cs = (joined cs, refl)
joined-first (suc n) [] = ([], refl)
joined-first (suc n) (c ∷ cs) =
    let (rest, split) = joined-first n cs in
    (rest, ap (c ++◌) split ∙ sym (append_assoc c (joined (first n cs)) rest))

module _ {E : Type 0} (Accepts : ℕ → Bytes → Type 0)
    (is_complete : (n : ℕ) (body : Bytes) → Accepts n body → length body ≡ n)
    (bucket_name key : Bytes) (content_length chunk_size : ℕ) (fits : content_length < u64_mod)
    (chunk_fits : chunk_size < u64_mod) where
  sound :
      {s : System E}
      → Reach Accepts (started bucket_name key content_length chunk_size) s
      → IsSound content_length s
  sound r =
      reach-IsSound content_length Accepts is_complete r
        (started-IsSound E bucket_name key content_length chunk_size fits chunk_fits)

  -- In every state of a started upload the counts are in order: the request has received no more than
  -- the `bytes_sent` of a handle that shares the writer's state, that is no more than the writer's
  -- `bytes_written`, which covers all that was reported as written, and that is no more than was
  -- declared; and at most `UPLOAD_CHANNEL_CAPACITY` chunks wait in the channel. The storage is assumed
  -- to answer with success only to a request whose body has its declared length, and the declared
  -- length and the chunk size to be below 2^64.
  pub bytes_sent-counts :
      {s : System E} (h : S3UploadHandle E)
      → Reach Accepts (started bucket_name key content_length chunk_size) s
      → h.state ≡ s.writer.state
      → (length (body_received s) ≤ bytes_sent h)
        × (bytes_sent h ≤ bytes_written s.writer)
        × (length s.written ≤ bytes_written s.writer)
        × (bytes_written s.writer ≤ content_length)
        × (count s.writer.body ≤ s.received + upload_channel_capacity)
  unfolding bytes_sent bytes_written
  bytes_sent-counts {s = s} h r shared =
      let v = sound r in
      let (more, split) = joined-first s.received s.writer.body in
      (
        omega (arith, same, v.delivered, ap length split, length-append (body_received s) more),
        omega (arith, same, v.sent),
        v.reported,
        v.within,
        v.parked.taken.1,
      )
    where
      same : h.state.sent ≡ s.writer.state.sent
      same = ap (λ t. t.sent) shared

  -- What a successful request has received is all that was written.
  received_all :
      (s : System E)
      → IsSound content_length s
      → s.task ≡ ended (ok tt)
      → (body_received s ≡ s.written) × (length s.written ≡ content_length)
  received_all s v done =
      let (rest, order) = v.order in
      let (more, split) = joined-first s.received s.writer.body in
      let whole : ◌≡◌ {A = Bytes} s.written (body_received s ++ (more ++ rest)) =
        order ∙ ap (λ t. t ++ rest) split ∙ append_assoc (body_received s) more rest in
      let nothing_more : ◌≡◌ {A = Bytes} (body_received s ++ (more ++ rest)) (body_received s) =
        append_full E (body_received s) (more ++ rest)
          (omega (arith, ap length whole, v.complete done, v.reported, v.within)) in
      (sym (whole ∙ nothing_more), omega (arith, ap length (whole ∙ nothing_more), v.complete done))

  -- However the writer, the channel, the task and the handle interleave: if the task of a started
  -- upload has ended and `finish` answers `Ok`, the request has received exactly the bytes that the
  -- writer reported as written, and they are as many as declared. The storage is assumed to answer
  -- with success only to a request whose body has its declared length, and the declared length and the
  -- chunk size to be below 2^64.
  pub finish-received :
      {s : System E} (result : Result (Unit {0}) (S3Error E))
      → Reach Accepts (started bucket_name key content_length chunk_size) s
      → s.task ≡ ended result
      → finish (settled_handle s result) ≡ ok tt
      → (body_received s ≡ s.written) × (length s.written ≡ content_length)
  finish-received {s = s} result r over done =
      let (accepted, _) = (finish-ok_iff (settled_handle s result)).0 done in
      received_all s (sound r) (over ∙ same_result accepted)
    where
      same_result :
          ◌≡◌ {A = Result (Result (Unit {0}) (S3Error E)) Bytes} (ok result) (ok (ok tt))
          → ◌≡◌ {A = Task E} (ended result) (ended (ok tt))
      same_result e = cc

  -- Under the same assumptions, and in every such state, `finish` answers `Ok` exactly when the storage
  -- did: an object that was stored is never reported as a body that ended short.
  pub finish-accepted :
      {s : System E} (result : Result (Unit {0}) (S3Error E))
      → Reach Accepts (started bucket_name key content_length chunk_size) s
      → s.task ≡ ended result
      → (finish (settled_handle s result) ≡ ok tt) ↔ (result ≡ ok tt)
  finish-accepted {s = s} result r over = (
    (λ done. stored ((finish-ok_iff (settled_handle s result)).0 done).0),
    (λ good.
        (finish-ok_iff (settled_handle s result)).1 (ap ok good, counted (over ∙ ap ended good))),
  )
    where
      stored :
          ◌≡◌ {A = Result (Result (Unit {0}) (S3Error E)) Bytes} (ok result) (ok (ok tt))
          → result ≡ ok tt
      stored e = cc

      counted : s.task ≡ ended (ok tt) → s.writer.state.content_length ≤ s.writer.state.sent
      counted good =
          let v = sound r in
          let (more, split) = joined-first s.received s.writer.body in
          omega (
            arith,
            v.complete good,
            v.declared,
            v.delivered,
            ap length split,
            length-append (body_received s) more,
          )
