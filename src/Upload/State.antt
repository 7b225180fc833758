-- ===== src/Upload/State.antt =====
-- `UploadWriterState` of src/upload_writer.rs: what the writer shares with whoever settles the
-- upload, and the rule that settles it. Each atomic is its value.
use my_s.Base.{
  ℕ, Bool, true, false, Option, none, some, ◌++◌, Bytes, codes, decimal, leb, if◌then◌else◌, Result,
  ok, err,
}
use my_s.Error.{S3Error, IoError, message, unexpected_eof, upload_producer_failed}

pub record UploadWriterState : Type 0 where
  pub content_length : ℕ
  pub accepted : ℕ
  pub sent : ℕ
  pub upload_ended : Bool
  pub body_ended : Bool
  -- The permit that `Notify` stores.
  pub body_started : Bool

unfoldable pub initial : ℕ → UploadWriterState
initial content_length = record {
  content_length = content_length;
  accepted = 0;
  sent = 0;
  upload_ended = false;
  body_ended = false;
  body_started = false;
}

unfoldable pub mark_upload_ended : UploadWriterState → UploadWriterState
mark_upload_ended s = record s { upload_ended = true }

unfoldable pub mark_body_started : UploadWriterState → UploadWriterState
mark_body_started s = record s { body_started = true }

unfoldable pub mark_body_ended : UploadWriterState → UploadWriterState
mark_body_ended s = record s { body_ended = true; body_started = true }

pub short_body_text : UploadWriterState → Bytes
short_body_text s =
    codes "only "
    ++ decimal s.sent
    ++ codes " of the "
    ++ decimal s.content_length
    ++ codes
        " bytes declared for the upload body went out - the writer was dropped early or shutdown() was not called, or the source ended early"

module _ {E : Type 0} where
  unfoldable pub short_body_error : UploadWriterState → Option (IoError E)
  short_body_error s =
      if leb s.content_length s.sent
      then none
      else some (message unexpected_eof (short_body_text s))

  unfoldable pub settle :
      UploadWriterState
      → Result (Unit {0}) (S3Error E)
      → Option (IoError E)
      → Result (Unit {0}) (S3Error E)
  settle s (ok done) none = ok tt
  settle s (ok done) (some body_error) = err (upload_producer_failed body_error)
  settle s (err s3_error) none = err s3_error
  settle s (err s3_error) (some body_error) =
      if s.upload_ended then err s3_error else err (upload_producer_failed body_error)
