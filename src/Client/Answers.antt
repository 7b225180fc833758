-- ===== src/Client/Answers.antt =====
-- `is_success`, `map_error_code`, `detect_error`, `parse_bucket_location`,
-- `create_bucket_configuration`, `read_success_body` and `format_response_trace` of src/s3_client.rs.
use my_s.Base.{
  ℕ, Bool, ◌||◌, ◌&&◌, List, [], ◌∷◌, ◌++◌, Option, none, some, Bytes, codes, decimal, length, leb,
  ltb, ◌==◌, if◌then◌else◌, match_str, contains, is_empty, from_utf8_lossy, Result, ok, err,
}
use my_s.Error.{
  S3Error, fl_url_error, bucket_already_exists, bucket_already_owned_by_you, bucket_not_found,
  key_not_found, no_such_upload, entity_too_small, range_not_satisfiable, unexpected_status_code,
  other_error,
}
use my_s.Region.{S3Region, as_str, from_str, aws_us_east1, is_us_east_1, no_region}
use my_s.Xml.Walker.{XmlReader, read_node_text}

-- What flurl hands out of an answer: the status, the headers `content-length` and `content-type`, the
-- body, or the failure to read it within `MAX_ANSWER_SIZE`, and whether the body can be streamed.
pub record Answer (E : Type 0) : Type 0 where
  pub status_code : ℕ
  pub content_length : Option Bytes
  pub content_type : Option Bytes
  pub body : Result Bytes E
  pub get_body : Result (Unit {0}) E

unfoldable pub is_success : ℕ → Bool
is_success status_code = leb 200 status_code && ltb status_code 300

abbrev error_codes : {E : Type 0} → List (Bytes × Option (S3Error E))
error_codes =
    (codes "BucketAlreadyExists", some bucket_already_exists)
    ∷ (codes "BucketAlreadyOwnedByYou", some bucket_already_owned_by_you)
    ∷ (codes "NoSuchBucket", some bucket_not_found)
    ∷ (codes "NoSuchKey", some key_not_found)
    ∷ (codes "NoSuchUpload", some no_such_upload)
    ∷ (codes "EntityTooSmall", some entity_too_small)
    ∷ (codes "InvalidRange", some range_not_satisfiable)
    ∷ []

unfoldable pub map_error_code : {E : Type 0} → Bytes → Option (S3Error E)
unfolding match_str
map_error_code error_code = match_str error_code error_codes none

module _ {E : Type 0} where
  -- A code that is not mapped keeps the answer as it is.
  unmapped : ℕ → Bytes → Bytes → Option (S3Error E) → S3Error E
  unfolding from_utf8_lossy
  unmapped status_code error_code body (some error) = error
  unmapped status_code error_code body none =
      unexpected_status_code status_code (some error_code) (from_utf8_lossy body)

  -- `detect_error` behind `read_node_text`.
  unfoldable pub typed : ℕ → Bytes → Option Bytes → S3Error E
  unfolding unmapped map_error_code from_utf8_lossy
  typed status_code body (some error_code) =
      unmapped status_code error_code body (map_error_code error_code)
  typed status_code body none =
      if status_code == 404
      then key_not_found
      else if status_code == 416
      then range_not_satisfiable
      else unexpected_status_code status_code none (from_utf8_lossy body)

pub not_a_location_text : Bytes → Bytes
unfolding from_utf8_lossy
not_a_location_text body =
    codes "GetBucketLocation answered with a body that is not a LocationConstraint: "
    ++ from_utf8_lossy body

-- `parse_bucket_location` behind `read_node_text`.
unfoldable pub located : {E : Type 0} → Bytes → Option Bytes → Result S3Region (S3Error E)
unfolding contains from_str
located body (some region) = if is_empty region then ok aws_us_east1 else ok (from_str region)
located body none =
    if contains (codes "<LocationConstraint") body
    then ok aws_us_east1
    else err (other_error (not_a_location_text body))

module _ {E R T N : Type 0} (xml : XmlReader R T N) where
  unfoldable pub detect_error : ℕ → Bytes → S3Error E
  unfolding typed read_node_text
  detect_error status_code body =
      typed status_code body (read_node_text xml body (codes "Error/Code"))

  unfoldable pub parse_bucket_location : Bytes → Result S3Region (S3Error E)
  unfolding located read_node_text
  parse_bucket_location body = located body (read_node_text xml body (codes "LocationConstraint"))

  success_body : ℕ → Result Bytes E → Result Bytes (S3Error E)
  unfolding is_success detect_error
  success_body status_code (err error) = err (fl_url_error error)
  success_body status_code (ok body) =
      if is_success status_code then ok body else err (detect_error status_code body)

  unfoldable pub read_success_body : Answer E → Result Bytes (S3Error E)
  unfolding success_body
  read_success_body answer = success_body answer.status_code answer.body

  expected_success : Result Bytes (S3Error E) → Result (Unit {0}) (S3Error E)
  expected_success (ok body) = ok tt
  expected_success (err error) = err error

  unfoldable pub expect_success : Answer E → Result (Unit {0}) (S3Error E)
  unfolding expected_success read_success_body
  expect_success answer = expected_success (read_success_body answer)

-- The elements of the body that places a bucket, around the name of its region.
abbrev pub configuration_head : Bytes
configuration_head =
    codes
      "<CreateBucketConfiguration xmlns=\"http://s3.amazonaws.com/doc/2006-03-01/\"><LocationConstraint>"

abbrev pub configuration_tail : Bytes
configuration_tail = codes "</LocationConstraint></CreateBucketConfiguration>"

unfoldable pub create_bucket_configuration : S3Region → Option Bytes
unfolding is_us_east_1 no_region as_str
create_bucket_configuration region =
    if no_region region || is_us_east_1 region
    then none
    else some (configuration_head ++ as_str region ++ configuration_tail)

abbrev pub debug_prefix : Bytes
debug_prefix = codes "[my-s3]"

unfoldable pub format_response_trace : ℕ → Option Bytes → Bytes
unfolding is_success from_utf8_lossy
format_response_trace status_code none =
    debug_prefix ++ codes " <-- " ++ decimal status_code ++ codes ", body not read"
format_response_trace status_code (some body) =
    let head = debug_prefix ++ codes " <-- " ++ decimal status_code ++ codes ", body " in
    if is_success status_code
    then head ++ decimal (length body) ++ codes " bytes"
    else head ++ decimal (length body) ++ codes " bytes: " ++ from_utf8_lossy body
