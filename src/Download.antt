-- ===== src/Download.antt =====
-- src/download_stream.rs: an object's body, a chunk at a time, checked against its stated length.
-- The body on the socket is flurl's: what its `next_item` answers is an argument of each call.
pub mod Whole
mod Tests
use my_s.Base.{
  ℕ, Option, none, some, ◌++◌, Bytes, codes, decimal, length, ltb, if◌then◌else◌, Result, ok, err,
  add_u64, trim, parse_u64,
}
use my_s.Error.{S3Error, fl_url_error, other_error}

pub record S3DownloadStream : Type 0 where
  pub content_length : Option ℕ
  pub content_type : Option Bytes
  pub received : ℕ

-- `value.trim().parse::<u64>().ok()` on a header that may be missing.
unfoldable pub header_number : Option Bytes → Option ℕ
header_number none = none
header_number (some value) = parse_u64 (trim value)

pub short_text : ℕ → ℕ → Bytes
short_text received expected =
    codes "Download ended after "
    ++ decimal received
    ++ codes " of the "
    ++ decimal expected
    ++ codes " bytes the storage said the object has"

module _ {E : Type 0} where
  -- `from_response`, given the headers `content-length` and `content-type` as flurl finds them, and
  -- whether it hands out the body.
  unfoldable pub from_response :
      Option Bytes → Option Bytes → Result (Unit {0}) E → Result S3DownloadStream (S3Error E)
  unfolding header_number
  from_response content_length content_type (err error) = err (fl_url_error error)
  from_response content_length content_type (ok body) = ok (record {
    content_length = header_number content_length;
    content_type = content_type;
    received = 0;
  })

  -- The end of the body, against the length that was stated.
  unfoldable pub at_end : Option ℕ → ℕ → Result (Option Bytes) (S3Error E)
  at_end none received = ok none
  at_end (some expected) received =
      if ltb received expected then err (other_error (short_text received expected)) else ok none

  unfoldable pub get_next_chunk :
      S3DownloadStream
      → Result (Option Bytes) E
      → S3DownloadStream × Result (Option Bytes) (S3Error E)
  unfolding at_end
  get_next_chunk s (err error) = (s, err (fl_url_error error))
  get_next_chunk s (ok none) = (s, at_end s.content_length s.received)
  get_next_chunk s (ok (some chunk)) =
      (record s { received = add_u64 s.received (length chunk) }, ok (some chunk))
