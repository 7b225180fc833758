-- ===== src/Client/Send.antt =====
-- `S3Client` and its `send_get`, `send_head`, `send_delete`, `send_put`, `send_put_streamed`,
-- `trace_response`, `read_success_body` and `expect_success` of src/s3_client.rs, and `sign_request` of
-- src/utils.rs with the headers that it sets.
use my_s.Base.{
  ℕ, Bool, true, false, not, Option, some, ◌∷◌, ◌++◌, Bytes, codes, if◌then◌else◌, Result, ok, err,
}
use my_s.Error.{S3Error}
use my_s.Region.{S3Region, as_str}
use my_s.Signing.{Signed, Credentials}
use my_s.Signing
use my_s.Client.Answers.{Answer, debug_prefix, format_response_trace}
use my_s.Client.Answers
use my_s.Client.Transport.{
  HttpRequestBody, Sent, get, head, delete, put, put_request_streamed, Environment, Io, answered,
  lifted, ◌>>=◌, ◌>>◌,
}

pub record S3Client : Type 0 where
  pub access_key : Bytes
  pub secret_key : Bytes
  pub region : S3Region
  pub endpoint : Bytes
  pub debug : Bool

unfoldable pub new : Bytes → Bytes → S3Region → Bytes → S3Client
new access_key secret_key region endpoint = record {
  access_key = access_key;
  secret_key = secret_key;
  region = region;
  endpoint = endpoint;
  debug = false;
}

unfoldable pub debug_to_console : S3Client → S3Client
debug_to_console s3 = record s3 { debug = true }

unfoldable pub credentials : S3Client → Credentials
unfolding as_str
credentials s3 = record {
  access_key = s3.access_key;
  secret_key = s3.secret_key;
  region = as_str s3.region;
}

-- `UNSIGNED_PAYLOAD`.
abbrev pub unsigned_payload : Bytes
unsigned_payload = codes "UNSIGNED-PAYLOAD"

unfoldable pub request_line : Bytes → Bytes
request_line request = debug_prefix ++ (codes " --> " ++ request)

module _ {F B E R T N : Type 0} (env : Environment F B E R T N) where
  unfoldable pub payload_hash_of : Bytes → Bytes
  payload_hash_of payload = env.hex_encode (env.sha256 payload)

  -- The end of `sign_request_with_payload_hash`: the three headers, set on the request.
  unfoldable pub with_headers : F → Result Signed (S3Error E) → Result F (S3Error E)
  with_headers fl_url (err error) = err error
  with_headers fl_url (ok s) = ok (
      env.fl_url.with_header
        (env.fl_url.with_header
          (env.fl_url.with_header fl_url (codes "X-Amz-Content-Sha256") s.x_amz_content_sha256)
          (codes "X-Amz-Date") s.x_amz_date)
        (codes "Authorization") s.authorization)

  -- `sign_request_with_payload_hash` at the time `now`.
  unfoldable pub signed_at : S3Client → F → Bytes → Bytes → Bytes → Result F (S3Error E)
  unfolding with_headers credentials Signing.sign_request_with_payload_hash
  signed_at s3 fl_url method payload_hash now = with_headers fl_url (
      Signing.sign_request_with_payload_hash env.hmac env.sha256 env.hex_encode (credentials s3)
        (env.fl_url.get_url_builder fl_url) method payload_hash now)

  unfoldable pub sign_request_with_payload_hash : S3Client → F → Bytes → Bytes → Io F B E F
  unfolding signed_at
  sign_request_with_payload_hash s3 fl_url method payload_hash w =
      (signed_at s3 fl_url method payload_hash (env.now w.sent), w)

  unfoldable pub sign_request : S3Client → F → Bytes → Bytes → Io F B E F
  unfolding sign_request_with_payload_hash payload_hash_of
  sign_request s3 fl_url method payload =
      sign_request_with_payload_hash s3 fl_url method (payload_hash_of payload)

  -- What the five `send_..` do with their own call of flurl.
  unfoldable pub send : S3Client → Sent F B → Io F B E (Answer E)
  unfolding lifted request_line
  send s3 request w =
      if not s3.debug
      then (lifted (env.answer w.sent request), record w { sent = request ∷ w.sent })
      else let (response, text) = env.answer_with_debug w.sent request in
        (
          lifted response,
          record { sent = request ∷ w.sent; console = request_line text ∷ w.console },
        )

  unfoldable pub send_get : S3Client → F → Io F B E (Answer E)
  unfolding send
  send_get s3 fl_url = send s3 (get fl_url)

  unfoldable pub send_head : S3Client → F → Io F B E (Answer E)
  unfolding send
  send_head s3 fl_url = send s3 (head fl_url)

  unfoldable pub send_delete : S3Client → F → Io F B E (Answer E)
  unfolding send
  send_delete s3 fl_url = send s3 (delete fl_url)

  unfoldable pub send_put : S3Client → F → HttpRequestBody → Io F B E (Answer E)
  unfolding send
  send_put s3 fl_url body = send s3 (put fl_url body)

  unfoldable pub send_put_streamed : S3Client → F → B → ℕ → Io F B E (Answer E)
  unfolding send
  send_put_streamed s3 fl_url body content_length =
      send s3 (put_request_streamed fl_url body content_length)

  unfoldable pub trace_response : S3Client → ℕ → Option Bytes → Io F B E (Unit {0})
  unfolding format_response_trace
  trace_response s3 status_code body w =
      if not s3.debug
      then (ok tt, w)
      else (ok tt, record w { console = format_response_trace status_code body ∷ w.console })

  -- The body is read, then traced, then judged by its status.
  unfoldable pub read_success_body : S3Client → Answer E → Io F B E Bytes
  unfolding lifted trace_response Answers.read_success_body
  read_success_body s3 answer = do
    body ← answered (lifted answer.body)
    trace_response s3 answer.status_code (some body)
    answered (Answers.read_success_body env.xml answer)

  unfoldable pub expect_success : S3Client → Answer E → Io F B E (Unit {0})
  unfolding read_success_body
  expect_success s3 answer = do body ← read_success_body s3 answer; answered (ok tt)
