-- ===== src/Client/Tracing.antt =====
-- What `debug_to_console` of src/s3_client.rs changes: the console, and nothing else.
use my_s.Base.{
  ℕ, ◌≡◌, refl, ap, ◌∙◌, Option, some, none, List, [], ◌∷◌, Bytes, not, subst, codes, false,
  if-true, Result, ok, err,
}
use my_s.Error.{S3Error}
use my_s.Client.Answers.{Answer, create_bucket_configuration}
use my_s.Client.Objects.{Range, opened_answer}
use my_s.Client.Transport.{
  Sent, get, head, put, put_request_streamed, Environment, Outside, Io, then_run, ◌>>=◌, answered,
  lifted,
}
use my_s.Client.Send.{
  S3Client, debug_to_console, credentials, signed_at, sign_request, sign_request_with_payload_hash,
  send, send_get, send_head, send_put, send_put_streamed, trace_response, read_success_body,
  expect_success, unsigned_payload,
}
use my_s.Client.Payloads.{read_of_failure, body_of}
use my_s.Client.Requests.{object_url, bucket_url, with_range}
use my_s.Client.Requests

-- The same result and the same requests, and on the right the console is still `printed`.
abbrev pub SameRun :
    {F B E A : Type 0}
    → List Bytes
    → Result A (S3Error E) × Outside F B
    → Result A (S3Error E) × Outside F B
    → Type 0
SameRun printed (result, after) (result', after') =
    (result ≡ result') × (after.sent ≡ after'.sent) × (after'.console ≡ printed)

abbrev pub Same : {F B E A : Type 0} → List Bytes → Io F B E A → Io F B E A → Type 0
Same {F} {B} printed m m' =
    (w w' : Outside F B) → w.sent ≡ w'.sent → w'.console ≡ printed → SameRun printed (m w) (m' w')

-- Writing a request down does not change what it is answered.
abbrev pub IsSilent : {F B E R T N : Type 0} → Environment F B E R T N → Type 0
IsSilent {F} {B} env =
    (before : List (Sent F B)) (r : Sent F B)
    → (env.answer_with_debug before r).0 ≡ env.answer before r

module _ {F B E : Type 0} (printed : List Bytes) where
  then_run-SameRun :
      {A C : Type 0} (x x' : Result A (S3Error E) × Outside F B) (f f' : A → Io F B E C)
      → SameRun printed x x'
      → ((a : A) → Same printed (f a) (f' a))
      → SameRun printed (then_run x f) (then_run x' f')
  then_run-SameRun {A = A} (ok a, w) (ok a', w') f f' (same, sent, quiet) rest =
      subst (λ b. SameRun printed (f a w) (f' b w')) (equal same) (rest a w w' sent quiet)
    where
      equal : ◌≡◌ {A = Result A (S3Error E)} (ok a) (ok a') → a ≡ a'
      equal e = cc
  then_run-SameRun (ok a, w) (err e, w') f f' (same, sent, quiet) rest = absurd cc
  then_run-SameRun (err e, w) (ok a, w') f f' (same, sent, quiet) rest = absurd cc
  then_run-SameRun (err e, w) (err e', w') f f' (same, sent, quiet) rest = (cc, sent, quiet)

  pub >>=-Same :
      {A C : Type 0} (m m' : Io F B E A) (f f' : A → Io F B E C)
      → Same printed m m'
      → ((a : A) → Same printed (f a) (f' a))
      → Same printed (m >>= f) (m' >>= f')
  >>=-Same m m' f f' first rest w w' sent quiet =
      then_run-SameRun (m w) (m' w') f f' (first w w' sent quiet) rest

  pub answered-Same :
      {A : Type 0} (r : Result A (S3Error E))
      → Same printed (answered {F = F} {B = B} r) (answered r)
  answered-Same r w w' sent quiet = (refl, sent, quiet)

module _ {F B E R T N : Type 0} (env : Environment F B E R T N) (s3 : S3Client)
    (silent : IsSilent env) (off : s3.debug ≡ false) (printed : List Bytes) where
  signed-Same :
      (fl_url : F) (method hash : Bytes)
      → Same printed
          (sign_request_with_payload_hash env (debug_to_console s3) fl_url method hash)
          (sign_request_with_payload_hash env s3 fl_url method hash)
  unfolding sign_request_with_payload_hash debug_to_console signed_at credentials
  signed-Same fl_url method hash w w' sent quiet =
      (ap (λ h. signed_at env s3 fl_url method hash (env.now h)) sent, sent, quiet)

  send-Same : (r : Sent F B) → Same printed (send env (debug_to_console s3) r) (send env s3 r)
  unfolding send debug_to_console
  send-Same r w w' sent quiet =
      rw (if-true _ _ (ap not off))
        (ap lifted (silent w.sent r ∙ ap (λ h. env.answer h r) sent), ap (r ∷◌) sent, quiet)

  trace-Same :
      (status_code : ℕ) (body : Option Bytes)
      → Same printed
          (trace_response env (debug_to_console s3) status_code body)
          (trace_response env s3 status_code body)
  unfolding trace_response debug_to_console
  trace-Same status_code body w w' sent quiet = rw (if-true _ _ (ap not off)) (refl, sent, quiet)

  traced-Same :
      {A : Type 0} (status_code : ℕ) (body : Option Bytes) (r : Result A (S3Error E))
      → Same printed
          (trace_response env (debug_to_console s3) status_code body >>= λ _. answered r)
          (trace_response env s3 status_code body >>= λ _. answered r)
  traced-Same status_code body r =
      >>=-Same printed (trace_response env (debug_to_console s3) status_code body)
        (trace_response env s3 status_code body) _ _ (trace-Same status_code body)
        (λ _. answered-Same printed r)

  pub request-Same :
      {A : Type 0} (fl_url : F) (method hash : Bytes) (request : F → Sent F B)
      (rest rest' : Answer E → Io F B E A)
      → ((answer : Answer E) → Same printed (rest answer) (rest' answer))
      → Same printed
          (sign_request_with_payload_hash env (debug_to_console s3) fl_url method hash >>= λ signed.
            send env (debug_to_console s3) (request signed) >>= rest)
          (sign_request_with_payload_hash env s3 fl_url method hash >>= λ signed.
            send env s3 (request signed) >>= rest')
  request-Same fl_url method hash request rest rest' same =
      >>=-Same printed _ _ _ _ (signed-Same fl_url method hash)
        (λ signed. >>=-Same printed _ _ rest rest' (send-Same (request signed)) same)

  read_success_body-Same :
      (answer : Answer E)
      → Same printed
          (read_success_body env (debug_to_console s3) answer)
          (read_success_body env s3 answer)
  unfolding read_success_body
  read_success_body-Same answer =
      >>=-Same printed _ _ _ _ (answered-Same printed (lifted answer.body))
        (λ body. traced-Same answer.status_code (some body) _)

  pub expect_success-Same :
      (answer : Answer E)
      → Same printed
          (expect_success env (debug_to_console s3) answer)
          (expect_success env s3 answer)
  unfolding expect_success
  expect_success-Same answer =
      >>=-Same printed _ _ _ _ (read_success_body-Same answer) (λ body. answered-Same printed _)

  pub get_body-Same :
      {A : Type 0} (fl_url : F) (make : Bytes → Result A (S3Error E))
      → Same printed
          (sign_request env (debug_to_console s3) fl_url (codes "GET") [] >>= λ signed.
            send_get env (debug_to_console s3) signed >>= λ answer.
            read_success_body env (debug_to_console s3) answer >>= λ body. answered (make body))
          (sign_request env s3 fl_url (codes "GET") [] >>= λ signed.
            send_get env s3 signed >>= λ answer.
            read_success_body env s3 answer >>= λ body. answered (make body))
  unfolding sign_request send_get
  get_body-Same fl_url make = request-Same fl_url (codes "GET") _ get _ _ (λ answer.
      >>=-Same printed _ _ _ _ (read_success_body-Same answer) (λ body. answered-Same printed _))

  pub head-Same :
      {A : Type 0} (fl_url : F) (make : Answer E → Result A (S3Error E))
      → Same printed
          (sign_request env (debug_to_console s3) fl_url (codes "HEAD") [] >>= λ signed.
            send_head env (debug_to_console s3) signed >>= λ answer.
            trace_response env (debug_to_console s3) answer.status_code none >>= λ _.
            answered (make answer))
          (sign_request env s3 fl_url (codes "HEAD") [] >>= λ signed.
            send_head env s3 signed >>= λ answer.
            trace_response env s3 answer.status_code none >>= λ _. answered (make answer))
  unfolding sign_request send_head
  head-Same fl_url make =
      request-Same fl_url (codes "HEAD") _ head _ _
        (λ answer. traced-Same answer.status_code none (make answer))

  pub upload_streamed-Same :
      (bucket_name key : Bytes) (body : B) (length timeout : ℕ)
      → Same printed
          (Requests.upload_streamed env (debug_to_console s3) bucket_name key body length timeout)
          (Requests.upload_streamed env s3 bucket_name key body length timeout)
  unfolding Requests.upload_streamed send_put_streamed object_url debug_to_console
  upload_streamed-Same bucket_name key body length timeout =
      request-Same _ (codes "PUT") unsigned_payload
        (λ fl_url. put_request_streamed fl_url body length) _ _ expect_success-Same

  pub open_object-Same :
      (bucket_name key : Bytes) (range : Option Range)
      → Same printed
          (Requests.open_object env (debug_to_console s3) bucket_name key range)
          (Requests.open_object env s3 bucket_name key range)
  unfolding Requests.open_object sign_request send_get object_url debug_to_console
  open_object-Same bucket_name key range =
      request-Same _ (codes "GET") _ (λ fl_url. get (with_range env fl_url range)) _ _
        (λ answer.
          >>=-Same printed _ _ _ _ (answered-Same printed (lifted (read_of_failure range answer)))
            (λ body. traced-Same answer.status_code body (opened_answer env.xml range answer)))

  pub create_bucket-Same :
      (bucket_name : Bytes)
      → Same printed
          (Requests.create_bucket env (debug_to_console s3) bucket_name)
          (Requests.create_bucket env s3 bucket_name)
  unfolding Requests.create_bucket sign_request send_put bucket_url debug_to_console
  create_bucket-Same bucket_name =
      request-Same _ (codes "PUT") _
        (λ fl_url. put fl_url (body_of (create_bucket_configuration s3.region))) _ _
        expect_success-Same
