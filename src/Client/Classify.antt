-- ===== src/Client/Classify.antt =====
-- How the answers of the storage are told apart: the errors of `detect_error`, the statuses of
-- `open_object`, and the region of a bucket, of src/s3_client.rs.
use my_s.Base.{
  ℕ, ◌≡◌, ◌↔◌, ◌⊎◌, inl, inr, refl, ap, ◌∙◌, Bool, true, not, ◌&&◌, ◌||◌, Option, none, some, Bytes,
  codes, leb, ◌==◌, Bool-cases, bytes_eq, bytes_eq_iff, Result, ok, err, arith,
}
use my_s.Error.{FlUrlErrorView, is_retryable, is_key_not_found, status_is_retryable, asks_for_retry}
use my_s.Xml.Walker.{XmlReader, read_node_text}
use my_s.Client.Answers.{Answer, detect_error, typed}
use my_s.Client.Objects.{Range, open_object, expected_status}

unfoldable pub is_mapped : Bytes → Bool
is_mapped code =
    bytes_eq code (codes "BucketAlreadyExists")
    || bytes_eq code (codes "BucketAlreadyOwnedByYou")
    || bytes_eq code (codes "NoSuchBucket")
    || bytes_eq code (codes "NoSuchKey")
    || bytes_eq code (codes "NoSuchUpload")
    || bytes_eq code (codes "EntityTooSmall")
    || bytes_eq code (codes "InvalidRange")

-- The codes by which S3 asks for a retry.
unfoldable pub is_asking : Bytes → Bool
is_asking code =
    bytes_eq code (codes "SlowDown")
    || bytes_eq code (codes "RequestTimeout")
    || bytes_eq code (codes "RequestTimeTooSkewed")
    || bytes_eq code (codes "InternalError")
    || bytes_eq code (codes "ServiceUnavailable")

-- Whether an answer asks to be repeated: never where its code names one of the seven errors, always
-- where it is one of S3's own codes for it, and else where the status is 500 or more, or 429.
unfoldable pub repeats : ℕ → Option Bytes → Bool
unfolding is_mapped is_asking
repeats status_code none = leb 500 status_code || status_code == 429
repeats status_code (some code) =
    not (is_mapped code) && (is_asking code || (leb 500 status_code || status_code == 429))

module _ {E : Type 0} (view : FlUrlErrorView E) where
  typed-is_retryable :
      (status_code : ℕ) (body : Bytes) (code : Option Bytes)
      → is_retryable view (typed status_code body code) ≡ repeats status_code code
  unfolding typed is_retryable repeats status_is_retryable asks_for_retry
  typed-is_retryable status_code body none = ground arith
  typed-is_retryable status_code body (some code) = ground arith

  -- An answer of the storage is retryable exactly as its code and its status say: a code that is one
  -- of the seven typed errors never is, whatever the status; `SlowDown`, `RequestTimeout`,
  -- `RequestTimeTooSkewed`, `InternalError` and `ServiceUnavailable` always are; and else, also for a
  -- body that is no XML, the status is 500 or more, or 429.
  pub detect_error-is_retryable :
      {R T N : Type 0} (xml : XmlReader R T N) (status_code : ℕ) (body : Bytes)
      → is_retryable view (detect_error xml status_code body)
        ≡ repeats status_code (read_node_text xml body (codes "Error/Code"))
  unfolding detect_error
  detect_error-is_retryable xml status_code body =
      typed-is_retryable status_code body (read_node_text xml body (codes "Error/Code"))

typed-key_not_found :
    (E : Type 0) (status_code : ℕ) (body : Bytes) (code : Option Bytes)
    → is_key_not_found (typed {E = E} status_code body code) ≡ true
    → (code ≡ some (codes "NoSuchKey")) ⊎ ((code ≡ none) × (status_code ≡ 404))
unfolding typed is_key_not_found
typed-key_not_found E status_code body none h = ground arith
typed-key_not_found E status_code body (some code) h =
    elim (Bool-cases (bytes_eq code (codes "NoSuchKey"))) [
      | inl same ↦ inl (ap some ((bytes_eq_iff code (codes "NoSuchKey")).0 same))
      | inr other ↦ ground arith
    ]

key_not_found-typed :
    (E : Type 0) (status_code : ℕ) (body : Bytes) (code : Option Bytes)
    → (code ≡ some (codes "NoSuchKey")) ⊎ ((code ≡ none) × (status_code ≡ 404))
    → is_key_not_found (typed {E = E} status_code body code) ≡ true
unfolding typed is_key_not_found
key_not_found-typed E status_code body code (inl e) =
    ap (λ c. is_key_not_found (typed {E = E} status_code body c)) e ∙ unfold bytes_eq in refl
key_not_found-typed E status_code body code (inr (e, missing)) =
    ap (λ c. is_key_not_found (typed {E = E} status_code body c)) e ∙ ground arith

module _ (E : Type 0) {R T N : Type 0} (xml : XmlReader R T N) where
  -- A failed request is a missing key exactly when its answer names `NoSuchKey`, or names nothing and
  -- is a 404: a 404 that names a missing bucket is not.
  pub detect_error-key_not_found :
      (status_code : ℕ) (body : Bytes)
      → (is_key_not_found (detect_error {E = E} xml status_code body) ≡ true) ↔ (
          (read_node_text xml body (codes "Error/Code") ≡ some (codes "NoSuchKey"))
          ⊎ ((read_node_text xml body (codes "Error/Code") ≡ none) × (status_code ≡ 404)))
  unfolding detect_error
  detect_error-key_not_found status_code body = (
    typed-key_not_found E status_code body (read_node_text xml body (codes "Error/Code")),
    key_not_found-typed E status_code body (read_node_text xml body (codes "Error/Code")),
  )

  -- An object is handed out exactly when the request was answered with the one status that was
  -- expected: 200 for the whole object, 206 for a range. A 200 to a range is refused.
  pub open_object-ok_iff :
      (range : Option Range) (sent : Result (Answer E) E) (answer : Answer E)
      → (open_object xml range sent ≡ ok answer)
        ↔ ((sent ≡ ok answer) × (answer.status_code ≡ expected_status range))
  unfolding open_object expected_status
  open_object-ok_iff none (err error) answer = ground arith
  open_object-ok_iff (some range) (err error) answer = ground arith
  open_object-ok_iff none (ok sent) answer = ground arith
  open_object-ok_iff (some range) (ok sent) answer = ground arith
