-- ===== src/Signing.antt =====
-- `sign_request_with_payload_hash`, `get_signature_key` and `get_amz_timestamp` of src/utils.rs. The
-- hashes and the hexadecimal encoding are those of the crates `hmac`, `sha2` and `hex`: parameters.
-- The text of the clock is an argument. HMAC takes a key of any length, so that making one never fails.
pub mod Covers
mod Tests
use my_s.Base.{
  ℕ, ◌-◌, [], ◌∷◌, ◌++◌, Option, Bytes, codes, take, ◌==◌, if◌then◌else◌, Result, ok, err,
}
use my_s.Error.{S3Error, other_error}
use my_s.Query.Canonical.{canonical_query_string}

abbrev pub new_line : ℕ
new_line = 10

-- `replace` of a one-byte text by nothing.
unfoldable pub without : ℕ → Bytes → Bytes
without b [] = []
without b (c ∷ s) = let rest = without b s in if c == b then rest else c ∷ rest

-- `while now.len() > 15 { now.pop(); }` leaves the first fifteen bytes.
unfoldable pub get_amz_timestamp : Bytes → Bytes
unfolding without
get_amz_timestamp rfc3339 = take 15 (without b':' (without b'-' rfc3339)) ++ codes "Z"

-- What a canonical request is made of: the method, and what the url builder of flurl puts on the wire.
pub record Request : Type 0 where
  pub method : Bytes
  pub canonical_uri : Bytes
  pub canonical_query : Bytes
  pub host : Bytes
  pub payload_hash : Bytes
  pub timestamp : Bytes

unfoldable pub canonical_request : Request → Bytes
canonical_request r =
    r.method
    ++ new_line
      ∷ (r.canonical_uri
          ++ new_line
            ∷ (r.canonical_query
                ++ new_line
                  ∷ (codes "host:"
                      ++ (r.host
                          ++ new_line
                            ∷ (codes "x-amz-content-sha256:"
                                ++ (r.payload_hash
                                    ++ new_line
                                      ∷ (codes "x-amz-date:"
                                          ++ (r.timestamp
                                              ++ new_line
                                                ∷ (new_line
                                                    ∷ (codes "host;x-amz-content-sha256;x-amz-date"
                                                        ++ new_line ∷ r.payload_hash))))))))))

-- `S3Client`, as far as it signs.
pub record Credentials : Type 0 where
  pub access_key : Bytes
  pub secret_key : Bytes
  pub region : Bytes

-- What flurl's url builder answers.
pub record UrlBuilder : Type 0 where
  pub get_host_port : Bytes
  pub get_path : Bytes
  pub get_query : Option Bytes

-- The three headers.
pub record Signed : Type 0 where
  pub x_amz_content_sha256 : Bytes
  pub x_amz_date : Bytes
  pub authorization : Bytes

module _ (hmac : Bytes → Bytes → Bytes) (sha256 : Bytes → Bytes) (hex_encode : Bytes → Bytes) where
  unfoldable pub get_signature_key : Bytes → Bytes → Bytes → Bytes → Bytes
  get_signature_key secret_key date region service =
      let k_date = hmac (codes "AWS4" ++ secret_key) date in
      let k_region = hmac k_date region in
      let k_service = hmac k_region service in hmac k_service (codes "aws4_request")

  abbrev pub scope : Bytes → Bytes → Bytes
  scope date region = date ++ codes "/" ++ region ++ codes "/s3/aws4_request"

  unfoldable pub string_to_sign : Credentials → Request → Bytes
  unfolding canonical_request
  string_to_sign s3 r =
      codes "AWS4-HMAC-SHA256\n"
      ++ r.timestamp
      ++ codes "\n"
      ++ scope (take 8 r.timestamp) s3.region
      ++ codes "\n"
      ++ hex_encode (sha256 (canonical_request r))

  unfoldable pub signature : Credentials → Request → Bytes
  unfolding get_signature_key string_to_sign
  signature s3 r = hex_encode (
      hmac (get_signature_key s3.secret_key (take 8 r.timestamp) s3.region (codes "s3"))
        (string_to_sign s3 r))

  unfoldable pub request_of : UrlBuilder → Bytes → Bytes → Bytes → Request
  unfolding canonical_query_string
  request_of url method payload_hash timestamp = record {
    method = method;
    canonical_uri = url.get_path;
    canonical_query = canonical_query_string url.get_query;
    host = url.get_host_port;
    payload_hash = payload_hash;
    timestamp = timestamp;
  }

  unfoldable pub sign_request_with_payload_hash :
      {E : Type 0}
      → Credentials
      → Result UrlBuilder Bytes
      → Bytes
      → Bytes
      → Bytes
      → Result Signed (S3Error E)
  unfolding request_of signature get_amz_timestamp
  sign_request_with_payload_hash s3 (err error) method payload_hash now =
      err (other_error (codes "Can not sign the request: " ++ error))
  sign_request_with_payload_hash s3 (ok url) method payload_hash now =
      let r = request_of url method payload_hash (get_amz_timestamp now) in
      ok (record {
        x_amz_content_sha256 = payload_hash;
        x_amz_date = r.timestamp;
        authorization =
            codes "AWS4-HMAC-SHA256 Credential="
            ++ s3.access_key
            ++ codes "/"
            ++ scope (take 8 r.timestamp) s3.region
            ++ codes ",SignedHeaders=host;x-amz-content-sha256;x-amz-date,Signature="
            ++ signature s3 r;
      })

  -- `sign_request`.
  unfoldable pub sign_request :
      {E : Type 0}
      → Credentials
      → Result UrlBuilder Bytes
      → Bytes
      → Bytes
      → Bytes
      → Result Signed (S3Error E)
  unfolding sign_request_with_payload_hash
  sign_request s3 url method payload now =
      sign_request_with_payload_hash s3 url method (hex_encode (sha256 payload)) now
