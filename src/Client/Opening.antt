-- ===== src/Client/Opening.antt =====
-- `open_object` of src/s3_client.rs for a range, from the url to the answer.
use my_s.Base.{
  ℕ, ◌≡◌, ◌↔◌, inl, inr, refl, ap, sym, ◌∙◌, not, Bool-cases, Option, none, some, List, [], ◌++◌,
  Bytes, codes, decimal, if◌then◌else◌, if-true, if-false, Result, Result-cases, ok, err, arith,
}
use my_s.Error.{S3Error, fl_url_error}
use my_s.Client.Objects.{Range, opened_answer, expected_status, is_ranged, range_header}
use my_s.Client.Objects
use my_s.Client.Answers.{Answer}
use my_s.Client.Classify.{open_object-ok_iff}
use my_s.Client.Transport.{Environment, Outside, Sent, get, then_run, ◌>>=◌, ◌>>◌, answered, lifted}
use my_s.Client.Send.{
  S3Client, sign_request, sign_request_with_payload_hash, send, send_get, trace_response,
}
use my_s.Client.Payloads.{read_of_failure}
use my_s.Client.Requests.{object_url, with_range, open_object}

module _ {F B E R T N : Type 0} (env : Environment F B E R T N) (s3 : S3Client) where
  -- What flurl comes to for a request.
  abbrev pub result_of : List (Sent F B) → Sent F B → Result (Answer E) E
  result_of before request =
      if not s3.debug then env.answer before request else (env.answer_with_debug before request).0

  -- The url of an object, signed for a `GET` without a body.
  abbrev pub signed_get : Bytes → Bytes → Outside F B → Result F (S3Error E)
  signed_get bucket_name key w =
      (sign_request env s3
        (env.fl_url.with_retries
          (env.fl_url.append_path_segment
            (env.fl_url.append_path_segment (env.fl_url.create s3.endpoint) bucket_name) key)
          3)
        (codes "GET") [] w).0

  -- The request for the bytes from `start` to `end`, both included.
  abbrev pub range_request : F → ℕ → ℕ → Sent F B
  range_request signed start end = get (
      env.fl_url.with_header signed (codes "Range")
        (codes "bytes=" ++ decimal start ++ codes "-" ++ decimal end))

  send_get-result_of :
      (u : F) (w : Outside F B) → (send_get env s3 u w).0 ≡ lifted (result_of w.sent (get u))
  unfolding send_get send
  send_get-result_of u w = elim (Bool-cases (not s3.debug)) [
    | inl quiet ↦ rw (if-true _ _ quiet) (ap lifted (sym (if-true _ _ quiet)))
    | inr loud ↦ rw (if-false _ _ loud) (ap lifted (sym (if-false _ _ loud)))
  ]

  trace_response-ok :
      (status_code : ℕ) (body : Option Bytes) (w : Outside F B)
      → (v : Outside F B) × (trace_response env s3 status_code body w ≡ (ok tt, v))
  unfolding trace_response
  trace_response-ok status_code body w = elim (Bool-cases (not s3.debug)) [
    | inl quiet ↦ (_, if-true _ _ quiet)
    | inr loud ↦ (_, if-false _ _ loud)
  ]

  unread :
      (range : Option Range) (response : Answer E) (error : E)
      → read_of_failure range response ≡ err error
      → opened_answer env.xml range response ≡ err (fl_url_error error)
  unfolding read_of_failure opened_answer Objects.refused expected_status is_ranged
  unread none response error e = ground (arith, e)
  unread (some range) response error e = ground (arith, e)

  -- A body that could not be read is the error that is answered in either place.
  judged :
      (range : Option Range) (response : Answer E) (w : Outside F B)
      → (then_run
          (lifted (read_of_failure range response), w)
          (λ body.
            trace_response env s3 response.status_code body
            >> answered (opened_answer env.xml range response))).0
        ≡ opened_answer env.xml range response
  judged range response w = go (read_of_failure range response) refl
    where
      go :
          (body : Result (Option Bytes) E)
          → read_of_failure range response ≡ body
          → (then_run
              (lifted body, w)
              (λ body.
                trace_response env s3 response.status_code body
                >> answered (opened_answer env.xml range response))).0
            ≡ opened_answer env.xml range response
      go (ok body) e =
          let (v, traced) = trace_response-ok response.status_code body w in
          unfold lifted in rw traced refl
      go (err error) e = unfold lifted in sym (unread range response error e)

  after_send :
      (range : Option Range) (sent : Result (Answer E) (S3Error E) × Outside F B)
      (answer : Result (Answer E) E)
      → sent.0 ≡ lifted answer
      → (then_run sent (λ response. answered (lifted (read_of_failure range response)) >>= λ body.
          trace_response env s3 response.status_code body
          >> answered (opened_answer env.xml range response))).0
        ≡ Objects.open_object env.xml range answer
  unfolding lifted Objects.open_object
  after_send range (ok response, w) (ok answer) e =
      judged range response w ∙ ap (opened_answer env.xml range) (same e)
    where
      same : ◌≡◌ {A = Result (Answer E) (S3Error E)} (ok response) (ok answer) → response ≡ answer
      same e = cc
  after_send range (ok response, w) (err error) e = absurd cc
  after_send range (err failure, w) (ok answer) e = absurd cc
  after_send range (err failure, w) (err error) e = e

  -- What is made of the answer to a request.
  open_object-result_of :
      (bucket_name key : Bytes) (start end : ℕ) (signed : F) (w : Outside F B)
      → signed_get bucket_name key w ≡ ok signed
      → (open_object env s3 bucket_name key (some (start, some end)) w).0
        ≡ Objects.open_object env.xml
            (some (start, some end))
            (result_of w.sent (range_request signed start end))
  unfolding open_object object_url with_range range_header sign_request
      sign_request_with_payload_hash
  open_object-result_of bucket_name key start end signed w e = rw e (
      after_send (some (start, some end)) _ (result_of w.sent (range_request signed start end))
        (send_get-result_of _ w))

  open_object-unsigned :
      (bucket_name key : Bytes) (range : Option Range) (w : Outside F B) (error : S3Error E)
      → signed_get bucket_name key w ≡ err error
      → (open_object env s3 bucket_name key range w).0 ≡ err error
  unfolding open_object object_url sign_request sign_request_with_payload_hash
  open_object-unsigned bucket_name key range w error e = rw e refl

  -- An object is opened exactly when the url was signed and its request was answered with a 206.
  pub open_object-ok :
      (bucket_name key : Bytes) (start end : ℕ) (w : Outside F B) (response : Answer E)
      → ((open_object env s3 bucket_name key (some (start, some end)) w).0 ≡ ok response) ↔ (
          (signed : F) × (signed_get bucket_name key w ≡ ok signed)
          × (result_of w.sent (range_request signed start end) ≡ ok response)
          × (response.status_code ≡ 206))
  unfolding expected_status
  open_object-ok bucket_name key start end w response = (there, back)
    where
      back :
          ((signed : F) × (signed_get bucket_name key w ≡ ok signed)
            × (result_of w.sent (range_request signed start end) ≡ ok response)
            × (response.status_code ≡ 206))
          → (open_object env s3 bucket_name key (some (start, some end)) w).0 ≡ ok response
      back (signed, e, answers, partial) =
          open_object-result_of bucket_name key start end signed w e
          ∙ (open_object-ok_iff E env.xml (some (start, some end)) _ response).1 (answers, partial)

      there :
          (open_object env s3 bucket_name key (some (start, some end)) w).0 ≡ ok response
          → (signed : F) × (signed_get bucket_name key w ≡ ok signed)
            × (result_of w.sent (range_request signed start end) ≡ ok response)
            × (response.status_code ≡ 206)
      there e = elim (Result-cases (signed_get bucket_name key w)) [
        | inr (error, f) ↦
            absurd (failed error (sym (open_object-unsigned bucket_name key _ w error f) ∙ e))
        | inl (signed, f) ↦
            let (answers, partial) =
              (open_object-ok_iff E env.xml (some (start, some end)) _ response).0
                (sym (open_object-result_of bucket_name key start end signed w f) ∙ e) in
            (signed, f, answers, partial)
      ]
        where
          failed :
              (error : S3Error E)
              → ◌≡◌ {A = Result (Answer E) (S3Error E)} (err error) (ok response)
              → ⊥
          failed error h = cc
