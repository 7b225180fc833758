-- ===== src/Error.antt =====
-- src/error.rs: the errors of the client, their classification, and `is_retryable`.
pub mod Display
use my_s.Base.{
  ℕ, Bool, true, false, ◌||◌, Option, none, some, [], ◌∷◌, Bytes, codes, match_str, leb, ◌==◌,
  if◌then◌else◌,
}

-- The variants of `flurl::FlUrlError` that the client tells apart. The type is not the client's: it
-- is the parameter `E` of `S3Error`, seen through a `FlUrlErrorView`.
pub data FlUrlVariant : Type 0 where
  io_error reading_hyper_body_error : FlUrlVariant
  -- With the answer of `is_retryable` on the error inside.
  my_http_client_error : Bool → FlUrlVariant
  other_variant : FlUrlVariant

pub record FlUrlErrorView (E : Type 0) : Type 0 where
  pub is_timeout : E → Bool
  pub variant : E → FlUrlVariant

-- The kinds of `std::io::Error` that the client makes, or passes on.
pub data ErrorKind : Type 0 where
  not_found invalid_input invalid_data unexpected_eof broken_pipe other : ErrorKind

mutual
  -- `enum S3Error`.
  pub data S3Error (E : Type 0) : Type 0 where
    fl_url_error : E → S3Error E
    bucket_already_exists : S3Error E
    bucket_already_owned_by_you : S3Error E
    bucket_not_found : S3Error E
    key_not_found : S3Error E
    no_such_upload : S3Error E
    entity_too_small : S3Error E
    range_not_satisfiable : S3Error E
    -- `status_code`, `error_code`, `body`.
    unexpected_status_code : ℕ → Option Bytes → Bytes → S3Error E
    upload_producer_failed : IoError E → S3Error E
    other_error : Bytes → S3Error E

  -- `std::io::Error`: a kind, with a message or with the error that it carries as its source.
  pub data IoError (E : Type 0) : Type 0 where
    message : ErrorKind → Bytes → IoError E
    carrying : ErrorKind → S3Error E → IoError E

module _ {E : Type 0} where
  unfoldable pub is_bucket_already_exists : S3Error E → Bool
  is_bucket_already_exists bucket_already_exists = true
  is_bucket_already_exists _ = false

  unfoldable pub is_bucket_already_owned_by_you : S3Error E → Bool
  is_bucket_already_owned_by_you bucket_already_owned_by_you = true
  is_bucket_already_owned_by_you _ = false

  unfoldable pub bucket_name_is_taken : S3Error E → Bool
  bucket_name_is_taken bucket_already_exists = true
  bucket_name_is_taken bucket_already_owned_by_you = true
  bucket_name_is_taken _ = false

  unfoldable pub is_bucket_not_found : S3Error E → Bool
  is_bucket_not_found bucket_not_found = true
  is_bucket_not_found _ = false

  unfoldable pub is_key_not_found : S3Error E → Bool
  is_key_not_found key_not_found = true
  is_key_not_found _ = false

  unfoldable pub is_no_such_upload : S3Error E → Bool
  is_no_such_upload no_such_upload = true
  is_no_such_upload _ = false

  unfoldable pub is_entity_too_small : S3Error E → Bool
  is_entity_too_small entity_too_small = true
  is_entity_too_small _ = false

  unfoldable pub is_range_not_satisfiable : S3Error E → Bool
  is_range_not_satisfiable range_not_satisfiable = true
  is_range_not_satisfiable _ = false

  unfoldable pub is_upload_producer_failed : S3Error E → Bool
  is_upload_producer_failed (upload_producer_failed err) = true
  is_upload_producer_failed _ = false

  unfoldable pub get_upload_producer_error : S3Error E → Option (IoError E)
  get_upload_producer_error (upload_producer_failed err) = some err
  get_upload_producer_error _ = none

  unfoldable pub get_status_code : S3Error E → Option ℕ
  get_status_code (unexpected_status_code status_code error_code body) = some status_code
  get_status_code _ = none

  abbrev pub io_error_kind : IoError E → ErrorKind
  io_error_kind (message kind text) = kind
  io_error_kind (carrying kind err) = kind

-- The codes by which S3 asks for a retry, whatever the status is.
unfoldable pub asks_for_retry : Bytes → Bool
unfolding match_str
asks_for_retry code =
    match_str code
      ((codes "SlowDown", true)
        ∷ (codes "RequestTimeout", true)
        ∷ (codes "RequestTimeTooSkewed", true)
        ∷ (codes "InternalError", true)
        ∷ (codes "ServiceUnavailable", true)
        ∷ [])
      false

-- The tests that `is_retryable` makes on an `UnexpectedStatusCode`.
unfoldable pub status_is_retryable : ℕ → Option Bytes → Bool
status_is_retryable status_code none = leb 500 status_code || status_code == 429
status_is_retryable status_code (some error_code) =
    if asks_for_retry error_code then true else leb 500 status_code || status_code == 429

variant_is_retryable : FlUrlVariant → Bool
variant_is_retryable io_error = true
variant_is_retryable reading_hyper_body_error = true
variant_is_retryable (my_http_client_error retryable) = retryable
variant_is_retryable other_variant = false

module _ {E : Type 0} (view : FlUrlErrorView E) where
  unfoldable pub fl_url_error_is_retryable : E → Bool
  unfolding variant_is_retryable
  fl_url_error_is_retryable err =
      if view.is_timeout err then true else variant_is_retryable (view.variant err)

  unfoldable pub is_retryable : S3Error E → Bool
  is_retryable (fl_url_error err) = fl_url_error_is_retryable err
  is_retryable (unexpected_status_code status_code error_code body) =
      status_is_retryable status_code error_code
  is_retryable bucket_already_exists = false
  is_retryable bucket_already_owned_by_you = false
  is_retryable bucket_not_found = false
  is_retryable key_not_found = false
  is_retryable no_such_upload = false
  is_retryable entity_too_small = false
  is_retryable range_not_satisfiable = false
  is_retryable (upload_producer_failed err) = false
  is_retryable (other_error text) = false

-- `to_io_error` of src/reader.rs.
unfoldable pub to_io_error : {E : Type 0} → S3Error E → IoError E
unfolding is_key_not_found
to_io_error err = if is_key_not_found err then carrying not_found err else carrying other err
