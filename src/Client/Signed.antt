-- ===== src/Client/Signed.antt =====
-- What the operations of src/s3_client.rs send: one request each, signed for its method and its body.
use my_s.Base.{
  ℕ, ◌≡◌, refl, sym, ◌∙◌, ◌⊎◌, inl, inr, Option, some, List, [], ◌∷◌, ◌++◌, Bytes, codes,
  Bool-cases, if-true, if-false, not, Result, ok, err, subst,
}
use my_s.Error.{S3Error, IoError, other_error, upload_producer_failed}
use my_s.Signing.{UrlBuilder}
use my_s.Signing
use my_s.Client.Answers.{Answer}
use my_s.Client.Transport.{
  HttpRequestBody, from_raw_data, empty, Sent, get, head, delete, put, put_request_streamed,
  Environment, Outside, Io, then_run, ◌>>=◌, lifted,
}
use my_s.Client.Objects.{Range}
use my_s.Client.Send.{
  S3Client, credentials, unsigned_payload, payload_hash_of, with_headers, signed_at,
  sign_request_with_payload_hash, send, trace_response, read_success_body, expect_success,
}
use my_s.Client.Requests.{with_range}

-- `signed` is a request that was signed for this method and this hash of its payload.
pub record IsSigned {F B E R T N : Type 0} (env : Environment F B E R T N) (s3 : S3Client)
    (method payload_hash : Bytes) (signed : F) : Type 0 where
  pub fl_url : F
  pub now : Bytes
  pub by_headers : signed_at env s3 fl_url method payload_hash now ≡ ok signed

abbrev pub body_bytes : HttpRequestBody → Bytes
body_bytes (from_raw_data content content_type) = content
body_bytes empty = []

-- `r` carries the signature of just its method and its body; a `Range` is set behind the signature,
-- and a body that is streamed is signed as `UNSIGNED-PAYLOAD`.
abbrev pub IsAuthentic :
    {F B E R T N : Type 0} → Environment F B E R T N → S3Client → Sent F B → Type 0
IsAuthentic {F} env s3 (get fl_url) =
    (signed : F) × (range : Option Range) × (fl_url ≡ with_range env signed range)
    × IsSigned env s3 (codes "GET") (payload_hash_of env []) signed
IsAuthentic env s3 (head fl_url) = IsSigned env s3 (codes "HEAD") (payload_hash_of env []) fl_url
IsAuthentic env s3 (delete fl_url) =
    IsSigned env s3 (codes "DELETE") (payload_hash_of env []) fl_url
IsAuthentic env s3 (put fl_url body) =
    IsSigned env s3 (codes "PUT") (payload_hash_of env (body_bytes body)) fl_url
IsAuthentic env s3 (put_request_streamed fl_url body content_length) =
    IsSigned env s3 (codes "PUT") unsigned_payload fl_url

-- An error that the client finds without asking the storage: of its input, or of the body's producer.
pub data IsLocal {E : Type 0} : S3Error E → Type 0 where
  of_input : (text : Bytes) → IsLocal (other_error text)
  of_producer : (error : IoError E) → IsLocal (upload_producer_failed error)

-- What came out of a computation that started with the requests `before`: it failed on its input
-- without sending anything, or it sent one more request, and `P` holds of that one.
abbrev pub SentOneOf :
    {F B E A : Type 0}
    → (Sent F B → Type 0)
    → List (Sent F B)
    → Result A (S3Error E) × Outside F B
    → Type 0
SentOneOf {F} {B} {E} P before (result, after) =
    ((e : S3Error E) × (result ≡ err e) × IsLocal e × (after.sent ≡ before))
    ⊎ ((r : Sent F B) × (after.sent ≡ r ∷ before) × P r)

-- One request, and it is authentic.
abbrev pub SentOne :
    {F B E R T N A : Type 0}
    → Environment F B E R T N
    → S3Client
    → List (Sent F B)
    → Result A (S3Error E) × Outside F B
    → Type 0
SentOne env s3 before x = SentOneOf (IsAuthentic env s3) before x

module _ {F B E A C : Type 0} where
  -- What follows an answer sends nothing.
  pub then_run-sent :
      (x : Result A (S3Error E) × Outside F B) (f : A → Io F B E C)
      → ((a : A) (w : Outside F B) → (f a w).1.sent ≡ w.sent)
      → (then_run x f).1.sent ≡ x.1.sent
  then_run-sent (ok a, w) f none_sent = none_sent a w
  then_run-sent (err e, w) f none_sent = refl

module _ {F B E R T N : Type 0} (env : Environment F B E R T N) (s3 : S3Client) where
  headers-fail :
      (fl_url : F) (method payload_hash now : Bytes) (url : Result UrlBuilder Bytes) (e : S3Error E)
      → with_headers env fl_url (
          Signing.sign_request_with_payload_hash env.hmac env.sha256 env.hex_encode
            (credentials s3)
            url
            method
            payload_hash
            now)
        ≡ err e
      → (text : Bytes) × (e ≡ other_error text)
  unfolding with_headers Signing.sign_request_with_payload_hash
  headers-fail fl_url method payload_hash now (ok url) e failed = absurd cc
  headers-fail fl_url method payload_hash now (err text) e failed =
      (codes "Can not sign the request: " ++ text, cc)

  send-sent : (r : Sent F B) (w : Outside F B) → (send env s3 r w).1.sent ≡ r ∷ w.sent
  unfolding send
  send-sent r w = elim (Bool-cases (not s3.debug)) [
    | inl quiet ↦ rw (if-true _ _ quiet) refl
    | inr loud ↦ rw (if-false _ _ loud) refl
  ]

  pub trace_response-sent :
      (status_code : ℕ) (body : Option Bytes) (w : Outside F B)
      → (trace_response env s3 status_code body w).1.sent ≡ w.sent
  unfolding trace_response
  trace_response-sent status_code body w = elim (Bool-cases (not s3.debug)) [
    | inl quiet ↦ rw (if-true _ _ quiet) refl
    | inr loud ↦ rw (if-false _ _ loud) refl
  ]

  pub read_success_body-sent :
      (answer : Answer E) (w : Outside F B) → (read_success_body env s3 answer w).1.sent ≡ w.sent
  unfolding read_success_body
  read_success_body-sent answer w =
      then_run-sent (lifted answer.body, w) _
        (λ body v.
          then_run-sent (trace_response env s3 answer.status_code (some body) v) _ (λ _ u. refl)
          ∙ trace_response-sent answer.status_code (some body) v)

  pub expect_success-sent :
      (answer : Answer E) (w : Outside F B) → (expect_success env s3 answer w).1.sent ≡ w.sent
  unfolding expect_success
  expect_success-sent answer w =
      then_run-sent (read_success_body env s3 answer w) _ (λ body v. refl)
      ∙ read_success_body-sent answer w

  -- The shape of every operation: a signature, a request that carries it, and what is made of the
  -- answer without sending anything else.
  pub one_request :
      {A : Type 0} (P : Sent F B → Type 0) (fl_url : F) (method payload_hash : Bytes)
      (request : F → Sent F B) (rest : Answer E → Io F B E A) (w : Outside F B)
      → ((signed : F) → IsSigned env s3 method payload_hash signed → P (request signed))
      → ((answer : Answer E) (v : Outside F B) → (rest answer v).1.sent ≡ v.sent)
      → SentOneOf P w.sent (
          (sign_request_with_payload_hash env s3 fl_url method payload_hash >>= λ signed.
          send env s3 (request signed) >>= rest)
            w)
  unfolding sign_request_with_payload_hash signed_at
  one_request P fl_url method payload_hash request rest w authentic none_sent =
      go (signed_at env s3 fl_url method payload_hash (env.now w.sent)) refl
    where
      go :
          (r : Result F (S3Error E))
          → signed_at env s3 fl_url method payload_hash (env.now w.sent) ≡ r
          → SentOneOf P w.sent (then_run (r, w) (λ signed. send env s3 (request signed) >>= rest))
      go (err e) failed =
          let (text, is_other) = headers-fail fl_url method payload_hash _ _ e failed in
          inl (e, refl, subst IsLocal (sym is_other) (of_input text), refl)
      go (ok signed) by_headers = inr (
        request signed,
        then_run-sent (send env s3 (request signed) w) rest none_sent
            ∙ send-sent (request signed) w,
        authentic signed
            (record { fl_url = fl_url; now = env.now w.sent; by_headers = by_headers }),
      )
