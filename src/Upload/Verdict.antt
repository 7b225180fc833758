-- ===== src/Upload/Verdict.antt =====
-- Which verdict an upload comes to: `finish` of src/upload_handle.rs and
-- `finish_upload_with_writer` of src/s3_client.rs.
use my_s.Base.{◌≤◌, ◌<◌, ◌≡◌, ◌↔◌, true, false, Result, ok, err, arith}
use my_s.Error.{
  S3Error, FlUrlErrorView, message, unexpected_eof, upload_producer_failed, is_retryable,
}
use my_s.Upload.State.{short_body_error, short_body_text}
use my_s.Upload.Handle.{S3UploadHandle, finish, finish_upload_with_writer}

module _ {E : Type 0} where
  -- `finish` answers `Ok` exactly when the storage accepted the request and every declared byte went out.
  pub finish-ok_iff :
      (h : S3UploadHandle E)
      → (finish h ≡ ok tt) ↔ ((h.upload ≡ ok (ok tt)) × (h.state.content_length ≤ h.state.sent))
  unfolding finish short_body_error
  finish-ok_iff h = ground arith

  -- While the writer is alive a failed upload keeps its own error, whatever has been sent.
  pub finish-live_writer :
      (h : S3UploadHandle E) (error : S3Error E)
      → h.upload ≡ ok (err error)
      → h.state.body_ended ≡ false
      → finish h ≡ err error
  unfolding finish
  finish-live_writer h error e alive = ground arith

  -- A body that was ended short on a running upload is the verdict, and is not retryable.
  pub finish-short_body :
      (view : FlUrlErrorView E) (h : S3UploadHandle E) (result : Result (Unit {0}) (S3Error E))
      → h.upload ≡ ok result
      → h.state.body_ended ≡ true
      → h.state.sent < h.state.content_length
      → h.state.upload_ended ≡ false
      → let verdict = upload_producer_failed (message unexpected_eof (short_body_text h.state)) in
        (finish h ≡ err verdict) × (is_retryable view verdict ≡ false)
  unfolding finish short_body_error is_retryable
  finish-short_body view h (ok done) e ended short alive = ground arith
  finish-short_body view h (err error) e ended short alive = ground arith

  -- The two ways to settle agree: with a producer that returned `Ok` and a body that has ended, the
  -- handle and `upload_with_writer` come to the same result.
  pub finish-finish_upload_with_writer :
      (h : S3UploadHandle E) (result : Result (Unit {0}) (S3Error E))
      → h.upload ≡ ok result
      → h.state.body_ended ≡ true
      → finish h ≡ finish_upload_with_writer result (ok (ok tt)) h.state
  unfolding finish finish_upload_with_writer
  finish-finish_upload_with_writer h (ok done) e ended = ground arith
  finish-finish_upload_with_writer h (err error) e ended = ground arith
