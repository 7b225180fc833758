-- ===== src/Client/Sends.antt =====
-- Each operation of src/s3_client.rs sends one authentic request, or fails on its input.
pub mod Perform
use my_s.Base.{
  ℕ, ◌&&◌, if◌then◌else◌, ◌≡◌, refl, sym, ◌∙◌, inl, inr, Option, some, none, List, [], Bytes, codes,
  ltb, Bool-cases, if-true, if-false, Result, ok, err, subst,
}
use my_s.Error.{
  S3Error, IoError, other_error, upload_producer_failed, is_bucket_already_owned_by_you,
}
use my_s.Upload.State.{UploadWriterState, settle, short_body_error}
use my_s.Upload.Handle.{
  Joined, finish_upload_with_writer, producer_failure, upload_task, is_some, ended_short_text,
}
use my_s.Client.Answers.{Answer, create_bucket_configuration}
use my_s.Client.Objects.{Range, invalid_range_text}
use my_s.Client.Objects
use my_s.Client.Transport.{
  from_raw_data, Sent, get, head, delete, put, put_request_streamed, Environment, Outside, Io,
  then_run, ◌>>=◌, answered, lifted,
}
use my_s.Client.Send.{
  S3Client, payload_hash_of, unsigned_payload, sign_request, send_get, send_head, send_delete,
  send_put, send_put_streamed, trace_response, read_success_body,
}
use my_s.Client.Payloads.{read_of_failure, signed_payload, body_of}
use my_s.Client.Requests.{with_range}
use my_s.Client.Requests
use my_s.Client.Signed.{
  IsSigned, IsAuthentic, IsLocal, of_input, of_producer, SentOne, SentOneOf, one_request,
  then_run-sent, trace_response-sent, read_success_body-sent, expect_success-sent, body_bytes,
}

module _ {F B E R T N : Type 0} (env : Environment F B E R T N) (s3 : S3Client) where
  pub then_run-SentOne :
      {A C : Type 0} (before : List (Sent F B)) (x : Result A (S3Error E) × Outside F B)
      (f : A → Io F B E C)
      → ((a : A) (w : Outside F B) → (f a w).1.sent ≡ w.sent)
      → SentOne env s3 before x
      → SentOne env s3 before (then_run x f)
  then_run-SentOne before (ok a, w) f none_sent (inl (e, failed, local, same)) = absurd cc
  then_run-SentOne before (ok a, w) f none_sent (inr (r, one, authentic)) =
      inr (r, none_sent a w ∙ one, authentic)
  then_run-SentOne before (err e, w) f none_sent (inl (e', failed, local, same)) =
      inl (e, refl, subst IsLocal (sym cc) local, same)
  then_run-SentOne before (err e, w) f none_sent (inr sent) = inr sent

  pub upload-SentOne :
      (bucket_name key content : Bytes) (timeout : ℕ) (w : Outside F B)
      → SentOne env s3 w.sent (Requests.upload env s3 bucket_name key content timeout w)
  unfolding Requests.upload sign_request send_put
  upload-SentOne bucket_name key content timeout w =
      one_request env s3 (IsAuthentic env s3) _ (codes "PUT") (payload_hash_of env content)
        (λ fl_url. put fl_url (from_raw_data content none)) _ w (λ signed is_signed. is_signed)
        (expect_success-sent env s3)

  pub upload_streamed-SentOne :
      (bucket_name key : Bytes) (body : B) (length timeout : ℕ) (w : Outside F B)
      → SentOne env s3 w.sent
          (Requests.upload_streamed env s3 bucket_name key body length timeout w)
  unfolding Requests.upload_streamed send_put_streamed
  upload_streamed-SentOne bucket_name key body length timeout w =
      one_request env s3 (IsAuthentic env s3) _ (codes "PUT") unsigned_payload
        (λ fl_url. put_request_streamed fl_url body length) _ w (λ signed is_signed. is_signed)
        (expect_success-sent env s3)

  pub open_object-SentOne :
      (bucket_name key : Bytes) (range : Option Range) (w : Outside F B)
      → SentOne env s3 w.sent (Requests.open_object env s3 bucket_name key range w)
  unfolding Requests.open_object sign_request send_get
  open_object-SentOne bucket_name key range w =
      one_request env s3 (IsAuthentic env s3) _ (codes "GET") (payload_hash_of env [])
        (λ fl_url. get (with_range env fl_url range)) _ w
        (λ signed is_signed. (signed, range, refl, is_signed))
        (λ answer v.
          then_run-sent (lifted (read_of_failure range answer), v) _
            (λ body u.
              then_run-sent (trace_response env s3 answer.status_code body u) _ (λ _ t. refl)
              ∙ trace_response-sent env s3 answer.status_code body u))

  pub delete_file-SentOne :
      (bucket_name key : Bytes) (w : Outside F B)
      → SentOne env s3 w.sent (Requests.delete_file env s3 bucket_name key w)
  unfolding Requests.delete_file sign_request send_delete
  delete_file-SentOne bucket_name key w =
      one_request env s3 (IsAuthentic env s3) _ (codes "DELETE") (payload_hash_of env []) delete _ w
        (λ signed is_signed. is_signed) (expect_success-sent env s3)

  -- The body that places a bucket is the one that was signed.
  body_of-signed_payload :
      (configuration : Option Bytes)
      → body_bytes (body_of configuration) ≡ signed_payload configuration
  unfolding body_of signed_payload
  body_of-signed_payload none = refl
  body_of-signed_payload (some configuration) = refl

  pub create_bucket-SentOne :
      (bucket_name : Bytes) (w : Outside F B)
      → SentOne env s3 w.sent (Requests.create_bucket env s3 bucket_name w)
  unfolding Requests.create_bucket sign_request send_put
  create_bucket-SentOne bucket_name w =
      let configuration = create_bucket_configuration s3.region in
      one_request env s3 (IsAuthentic env s3) _ (codes "PUT")
        (payload_hash_of env (signed_payload configuration))
        (λ fl_url. put fl_url (body_of configuration)) _ w
        (λ signed is_signed.
          subst (λ content. IsSigned env s3 (codes "PUT") (payload_hash_of env content) signed)
            (sym (body_of-signed_payload configuration)) is_signed)
        (expect_success-sent env s3)

  pub head-SentOne :
      {A : Type 0} (fl_url : F) (make : Answer E → Result A (S3Error E)) (w : Outside F B)
      → SentOne env s3 w.sent (
          (sign_request env s3 fl_url (codes "HEAD") [] >>= λ signed.
          send_head env s3 signed >>= λ answer.
          trace_response env s3 answer.status_code none >>= λ _. answered (make answer))
            w)
  unfolding sign_request send_head
  head-SentOne fl_url make w =
      one_request env s3 (IsAuthentic env s3) _ (codes "HEAD") (payload_hash_of env []) head _ w
        (λ signed is_signed. is_signed)
        (λ answer v.
          then_run-sent (trace_response env s3 answer.status_code none v) _ (λ _ t. refl)
          ∙ trace_response-sent env s3 answer.status_code none v)

  pub get_body-SentOne :
      {A : Type 0} (fl_url : F) (make : Bytes → Result A (S3Error E)) (w : Outside F B)
      → SentOne env s3 w.sent (
          (sign_request env s3 fl_url (codes "GET") [] >>= λ signed.
          send_get env s3 signed >>= λ answer.
          read_success_body env s3 answer >>= λ body. answered (make body))
            w)
  unfolding sign_request send_get with_range
  get_body-SentOne fl_url make w =
      one_request env s3 (IsAuthentic env s3) _ (codes "GET") (payload_hash_of env []) get _ w
        (λ signed is_signed. (signed, none, refl, is_signed))
        (λ answer v.
          then_run-sent (read_success_body env s3 answer v) _ (λ body t. refl)
          ∙ read_success_body-sent env s3 answer v)

  pub recovered-SentOne :
      (before : List (Sent F B)) (x : Result (Unit {0}) (S3Error E) × Outside F B)
      → SentOne env s3 before x
      → SentOne env s3 before (Objects.create_bucket_if_not_exists x.0, x.1)
  unfolding Objects.create_bucket_if_not_exists is_bucket_already_owned_by_you
  recovered-SentOne before (ok done, w) one = one
  recovered-SentOne before (err e, w) (inr sent) = inr sent
  recovered-SentOne before (err e, w) (inl (e', failed, local, same)) =
      go (subst IsLocal (sym cc) local)
    where
      go :
          {e : S3Error E}
          → IsLocal e
          → SentOne env s3 before (Objects.create_bucket_if_not_exists (err e), w)
      go (of_input text) = inl (other_error text, refl, of_input text, same)
      go (of_producer error) = inl (upload_producer_failed error, refl, of_producer error, same)

  settle-IsLocal :
      (e : S3Error E) (state : UploadWriterState) (failure : Option (IoError E))
      → IsLocal e
      → (e' : S3Error E) × (settle state (err e) failure ≡ err e') × IsLocal e'
  unfolding settle
  settle-IsLocal e state none local = (e, refl, local)
  settle-IsLocal e state (some error) local = elim (Bool-cases state.upload_ended) [
    | inl gone ↦ (e, if-true _ _ gone, local)
    | inr alive ↦ (upload_producer_failed error, if-false _ _ alive, of_producer error)
  ]

  pub finished-SentOneOf :
      (P : Sent F B → Type 0) (before : List (Sent F B))
      (x : Result (Unit {0}) (S3Error E) × Outside F B)
      (produced : Joined (Result (Unit {0}) (IoError E))) (state : UploadWriterState)
      → SentOneOf P before x
      → SentOneOf P before (finish_upload_with_writer x.0 produced state, x.1)
  unfolding finish_upload_with_writer
  finished-SentOneOf P before x produced state (inr sent) = inr sent
  finished-SentOneOf P before (ok done, w) produced state (inl (e, failed, local, same)) = absurd cc
  finished-SentOneOf P before (err e, w) produced state (inl (e', failed, local, same)) =
      let (found, settled, here) =
        settle-IsLocal e state (producer_failure state produced) (subst IsLocal (sym cc) local) in
      inl (found, settled, here, same)

  pub started-SentOne :
      (before : Outside F B) (bucket_name key : Bytes) (state : UploadWriterState)
      (x : Result (Unit {0}) (S3Error E) × Outside F B)
      → SentOne env s3 before.sent x
      → let task = upload_task state bucket_name key x.0 in
        SentOne env s3 before.sent (task.1, if task.0 then x.1 else before)
  unfolding upload_task
  started-SentOne before bucket_name key state x one =
      elim (Bool-cases (state.body_ended && is_some (short_body_error {E = E} state))) [
        | inl short ↦
            rw (if-true _ _ short)
              (inl (other_error (ended_short_text bucket_name key), refl, of_input _, refl))
        | inr whole ↦ rw (if-false _ _ whole) one
      ]

  pub range-SentOne :
      (bucket_name key : Bytes) (start : ℕ) (end : Option ℕ) (w : Outside F B)
      → SentOne env s3 w.sent (Requests.download_file_range env s3 bucket_name key start end w)
  unfolding Requests.download_file_range Requests.stream_of
  range-SentOne bucket_name key start none w =
      then_run-SentOne w.sent _ _ (λ a v. refl)
        (open_object-SentOne bucket_name key (some (start, none)) w)
  range-SentOne bucket_name key start (some end) w = elim (Bool-cases (ltb end start)) [
    | inl back ↦
        rw (if-true _ _ back)
          (inl (other_error (invalid_range_text start end), refl, of_input _, refl))
    | inr there ↦ rw (if-false _ _ there) (
        then_run-SentOne w.sent _ _ (λ a v. refl)
          (open_object-SentOne bucket_name key (some (start, some end)) w))
  ]
