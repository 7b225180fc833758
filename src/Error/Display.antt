-- ===== src/Error/Display.antt =====
-- `Display` of `S3Error` in src/error.rs, and its conversions. What `{:?}` prints of flurl's error is a
-- parameter; `std::io::Error` prints its message, or the error that it carries.
use my_s.Base.{◌++◌, Bytes, codes, decimal}
use my_s.Error.{
  S3Error, IoError, fl_url_error, bucket_already_exists, bucket_already_owned_by_you,
  bucket_not_found, key_not_found, no_such_upload, entity_too_small, range_not_satisfiable,
  unexpected_status_code, upload_producer_failed, other_error, message, carrying,
}

unfoldable mutual
  pub display : {E : Type 0} → (E → Bytes) → S3Error E → Bytes
  display debug (fl_url_error err) = codes "FlUrl error: " ++ debug err
  display debug bucket_already_exists = codes "BucketAlreadyExists"
  display debug bucket_already_owned_by_you = codes "BucketAlreadyOwnedByYou"
  display debug bucket_not_found = codes "NoSuchBucket"
  display debug key_not_found = codes "NoSuchKey"
  display debug no_such_upload = codes "NoSuchUpload"
  display debug entity_too_small = codes "EntityTooSmall"
  display debug range_not_satisfiable = codes "RangeNotSatisfiable"
  display debug (unexpected_status_code status_code error_code body) =
      codes "Status Code: " ++ (decimal status_code ++ (codes ". Err: " ++ body))
  display debug (upload_producer_failed err) =
      codes "The upload body could not be produced: " ++ display_io_error debug err
  display debug (other_error text) = text

  pub display_io_error : {E : Type 0} → (E → Bytes) → IoError E → Bytes
  display_io_error debug (message kind text) = text
  display_io_error debug (carrying kind err) = display debug err

-- `From<FlUrlError>`.
unfoldable pub from_fl_url_error : {E : Type 0} → E → S3Error E
from_fl_url_error value = fl_url_error value

-- `From<String>`, `From<&str>` and `From<&String>`.
unfoldable pub from_text : {E : Type 0} → Bytes → S3Error E
from_text value = other_error value
