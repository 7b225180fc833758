-- ===== src/Client/Objects.antt =====
-- `open_object`, `check_if_bucket_exists`, `get_object_size`, `open_reader` and
-- `create_bucket_if_not_exists` of src/s3_client.rs. What flurl comes to for the request, an answer
-- or its error, is an argument.
use my_s.Base.{
  ℕ, Bool, true, false, Option, none, some, [], ◌++◌, Bytes, codes, decimal, ◌==◌, if◌then◌else◌,
  Result, ok, err,
}
use my_s.Error.{
  S3Error, fl_url_error, range_not_satisfiable, other_error, is_bucket_already_owned_by_you,
}
use my_s.Xml.Walker.{XmlReader}
use my_s.Client.Answers.{Answer, is_success, detect_error}
use my_s.Download.{header_number}

-- The two bounds of a `Range`: the first byte, and the last where it is given.
abbrev pub Range : Type 0
Range = ℕ × Option ℕ

unfoldable pub range_header : Range → Bytes
range_header (start, some end) = codes "bytes=" ++ decimal start ++ codes "-" ++ decimal end
range_header (start, none) = codes "bytes=" ++ decimal start ++ codes "-"

-- Without a range the whole object is expected, with one a part.
unfoldable pub expected_status : Option Range → ℕ
expected_status none = 200
expected_status (some range) = 206

unfoldable pub is_ranged : Option Range → Bool
is_ranged none = false
is_ranged (some range) = true

pub ignored_range_text : Bytes
ignored_range_text =
    codes "Server ignored the Range header and returned the full object (200 instead of 206)"

pub invalid_range_text : ℕ → ℕ → Bytes
invalid_range_text start end =
    codes "Invalid range: end (" ++ decimal end ++ codes ") < start (" ++ decimal start ++ codes ")"

pub no_length_text : Bytes → Bytes → ℕ → Bytes
no_length_text bucket_name key status_code =
    codes "HEAD "
    ++ bucket_name
    ++ codes "/"
    ++ key
    ++ codes " answered "
    ++ decimal status_code
    ++ codes " without a usable Content-Length"

module _ {E R T N : Type 0} (xml : XmlReader R T N) where
  -- The answer is not the object: its body says why, where it can be read.
  unfoldable pub refused : ℕ → Result Bytes E → S3Error E
  unfolding detect_error
  refused status_code (err error) = fl_url_error error
  refused status_code (ok body) = detect_error xml status_code body

  unfoldable pub opened_answer : Option Range → Answer E → Result (Answer E) (S3Error E)
  unfolding expected_status is_ranged refused
  opened_answer range answer =
      if answer.status_code == expected_status range
      then ok answer
      else if (if is_ranged range then answer.status_code == 416 else false)
      then err range_not_satisfiable
      else if (if is_ranged range then answer.status_code == 200 else false)
      then err (other_error ignored_range_text)
      else err (refused answer.status_code answer.body)

  unfoldable pub open_object : Option Range → Result (Answer E) E → Result (Answer E) (S3Error E)
  unfolding opened_answer
  open_object range (err error) = err (fl_url_error error)
  open_object range (ok answer) = opened_answer range answer

  unfoldable pub check_if_bucket_exists : Result (Answer E) E → Result Bool (S3Error E)
  unfolding is_success detect_error
  check_if_bucket_exists (err error) = err (fl_url_error error)
  check_if_bucket_exists (ok answer) =
      if is_success answer.status_code
      then ok true
      else if answer.status_code == 404
      then ok false
      else err (detect_error xml answer.status_code [])

  stated_size : Bytes → Bytes → ℕ → Option ℕ → Result ℕ (S3Error E)
  stated_size bucket_name key status_code (some content_length) = ok content_length
  stated_size bucket_name key status_code none =
      err (other_error (no_length_text bucket_name key status_code))

  unfoldable pub get_object_size : Bytes → Bytes → Result (Answer E) E → Result ℕ (S3Error E)
  unfolding is_success detect_error header_number stated_size
  get_object_size bucket_name key (err error) = err (fl_url_error error)
  get_object_size bucket_name key (ok answer) =
      if is_success answer.status_code
      then stated_size bucket_name key answer.status_code (header_number answer.content_length)
      else err (detect_error xml answer.status_code [])

-- `create_bucket_if_not_exists`, given what `create_bucket` comes to.
unfoldable pub create_bucket_if_not_exists :
    {E : Type 0} → Result (Unit {0}) (S3Error E) → Result (Unit {0}) (S3Error E)
unfolding is_bucket_already_owned_by_you
create_bucket_if_not_exists (ok done) = ok tt
create_bucket_if_not_exists (err error) =
    if is_bucket_already_owned_by_you error then ok tt else err error
