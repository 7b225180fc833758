-- ===== src/Upload/Handle.antt =====
-- `S3UploadHandle` of src/upload_handle.rs, and what of src/s3_client.rs settles an upload:
-- `finish_upload_with_writer`, and the task of `start_upload`.
use my_s.Base.{
  ℕ, Bool, true, false, ◌&&◌, Option, none, some, ◌++◌, Bytes, codes, if◌then◌else◌, Result, ok,
  err,
}
use my_s.Error.{S3Error, IoError, message, other, other_error}
use my_s.Upload.State.{UploadWriterState, short_body_error, settle, mark_upload_ended}

-- How a task was joined: its value, or the text of tokio's `JoinError`.
abbrev pub Joined : Type 0 → Type 0
Joined A = Result A Bytes

pub record S3UploadHandle (E : Type 0) : Type 0 where
  -- What the upload task has come to, once it is awaited.
  pub upload : Joined (Result (Unit {0}) (S3Error E))
  pub state : UploadWriterState
  pub bucket_name : Bytes
  pub key : Bytes

pub ended_short_text : Bytes → Bytes → Bytes
ended_short_text bucket_name key =
    codes "the body of "
    ++ bucket_name
    ++ codes "/"
    ++ key
    ++ codes " ended short before its request was started"

pub no_producer_text : Bytes → Bytes
no_producer_text join_error = codes "the upload body producer did not finish: " ++ join_error

module _ {E : Type 0} where
  unfoldable pub bytes_sent : S3UploadHandle E → ℕ
  bytes_sent h = h.state.sent

  pub unfinished_text : S3UploadHandle E → Bytes → Bytes
  unfinished_text h join_error =
      codes "the upload task for "
      ++ h.bucket_name
      ++ codes "/"
      ++ h.key
      ++ codes " did not finish: "
      ++ join_error

  -- The failure of the body, as far as the handle can tell.
  unfoldable pub body_failure :
      UploadWriterState → Result (Unit {0}) (S3Error E) → Option (IoError E)
  body_failure s (ok done) = short_body_error s
  body_failure s (err error) = if s.body_ended then short_body_error s else none

  unfoldable pub finish : S3UploadHandle E → Result (Unit {0}) (S3Error E)
  unfolding body_failure settle
  finish h = elim h.upload [
    | ok upload_result ↦ settle h.state upload_result (body_failure h.state upload_result)
    | err join_error ↦ err (other_error (unfinished_text h join_error))
  ]

  -- `Drop`, given whether the task has finished: the state after it, and whether it was aborted.
  unfoldable pub dropped : S3UploadHandle E → Bool → UploadWriterState × Bool
  unfolding mark_upload_ended
  dropped h is_finished =
      if is_finished then (h.state, false) else (mark_upload_ended h.state, true)

  pub producer_failure :
      UploadWriterState → Joined (Result (Unit {0}) (IoError E)) → Option (IoError E)
  producer_failure s (err join_error) = some (message other (no_producer_text join_error))
  producer_failure s (ok (err error)) = some error
  producer_failure s (ok (ok done)) = short_body_error s

  unfoldable pub finish_upload_with_writer :
      Result (Unit {0}) (S3Error E)
      → Joined (Result (Unit {0}) (IoError E))
      → UploadWriterState
      → Result (Unit {0}) (S3Error E)
  unfolding producer_failure settle
  finish_upload_with_writer upload_result produce_result s =
      settle s upload_result (producer_failure s produce_result)

  pub is_some : Option (IoError E) → Bool
  is_some none = false
  is_some (some error) = true

  -- The task of `start_upload` from where `body_started` has resolved: whether it starts a request,
  -- and its result, given what `upload_streamed` comes to.
  unfoldable pub upload_task :
      UploadWriterState
      → Bytes
      → Bytes
      → Result (Unit {0}) (S3Error E)
      → Bool × Result (Unit {0}) (S3Error E)
  unfolding is_some
  upload_task s bucket_name key streamed =
      if s.body_ended && is_some (short_body_error s)
      then (false, err (other_error (ended_short_text bucket_name key)))
      else (true, streamed)
