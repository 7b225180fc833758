-- ===== src/Client/Ranges.antt =====
-- `download_file_range` of src/s3_client.rs, from its arguments to the stream.
use my_s.Base.{
  ℕ, ◌≤◌, ◌≡◌, ◌↔◌, inl, inr, refl, ap, sym, ◌∙◌, Bool-cases, Option, some, Bytes, ltb, if-true,
  if-false, Result, ok, err, arith,
}
use my_s.Error.{S3Error}
use my_s.Download.{S3DownloadStream, from_response, header_number}
use my_s.Client.Objects.{Range}
use my_s.Client.Answers.{Answer}
use my_s.Client.Transport.{Environment, Outside, Io, then_run}
use my_s.Client.Send.{S3Client}
use my_s.Client.Requests.{open_object, stream_of, download_file_range}
use my_s.Client.Opening.{signed_get, result_of, range_request, open_object-ok}

-- The stream of an answer, before any of it is read.
abbrev pub opened : {E : Type 0} → Answer E → S3DownloadStream
opened answer = record {
  content_length = header_number answer.content_length;
  content_type = answer.content_type;
  received = 0;
}

module _ {F B E R T N : Type 0} (env : Environment F B E R T N) (s3 : S3Client) where
  stream_of-ok :
      (x : Result (Answer E) (S3Error E) × Outside F B) (stream : S3DownloadStream)
      → ((then_run x (stream_of env)).0 ≡ ok stream) ↔ (
          (response : Answer E) × (x.0 ≡ ok response)
          × (response.get_body ≡ ok tt)
          × (stream ≡ opened response))
  unfolding stream_of from_response
  stream_of-ok (err error, w) stream =
      ((λ e. absurd cc), (λ (response, e, hands_out, same). absurd cc))
  stream_of-ok (ok response, w) stream = (
    (λ e. let (hands_out, same) = streams response.get_body e in (response, refl, hands_out, same)),
    (λ (found, e, hands_out, same).
        ap (λ r. from_response r.content_length r.content_type r.get_body) (one_answer found e)
        ∙ ap (from_response found.content_length found.content_type) hands_out
        ∙ ap ok (sym same)),
  )
    where
      one_answer :
          (found : Answer E)
          → ◌≡◌ {A = Result (Answer E) (S3Error E)} (ok response) (ok found)
          → response ≡ found
      one_answer found e = cc

      streams :
          (body : Result (Unit {0}) E)
          → from_response response.content_length response.content_type body ≡ ok stream
          → (body ≡ ok tt) × (stream ≡ opened response)
      streams (ok body) e = (refl, sym (opens e))
        where
          opens :
              ◌≡◌ {A = Result S3DownloadStream (S3Error E)} (ok (opened response)) (ok stream)
              → opened response ≡ stream
          opens e = cc
      streams (err error) e = absurd cc

  -- download_file_range answers a stream exactly when the end does not lie before the start, the `GET`
  -- for the object could be signed, it is answered, with the header `Range: bytes=start-end`, with a
  -- 206, and flurl hands out the body; and the stream is then that of the answer, none of it read.
  pub download_file_range-ok_iff :
      (bucket_name key : Bytes) (start end : ℕ) (w : Outside F B) (stream : S3DownloadStream)
      → ((download_file_range env s3 bucket_name key start (some end) w).0 ≡ ok stream) ↔ (
          (start ≤ end)
          × ((signed : F) × (response : Answer E) × (signed_get env s3 bucket_name key w
                ≡ ok signed)
              × (result_of env s3 w.sent (range_request env s3 signed start end) ≡ ok response)
              × (response.status_code ≡ 206)
              × (response.get_body ≡ ok tt)
              × (stream ≡ opened response)))
  unfolding download_file_range
  download_file_range-ok_iff bucket_name key start end w stream =
      elim (Bool-cases (ltb end start)) [
        | inl reversed ↦ (
          (λ e. absurd (
              failed (
                sym (ap (λ (run : Io F B E S3DownloadStream). (run w).0) (if-true _ _ reversed))
                ∙ e))),
          (λ (le, rest). absurd (ground arith)),
        )
        | inr forth ↦
            let asked = ap (λ (run : Io F B E S3DownloadStream). (run w).0) (if-false _ _ forth) in
            let streams = stream_of-ok (open_object env s3 bucket_name key range w) stream in
            (
              (λ e.
                  let (response, opens, hands_out, same) = streams.0 (sym asked ∙ e) in
                  let (signed, f, answers, partial) =
                    (open_object-ok env s3 bucket_name key start end w response).0 opens in
                  (ground arith, (signed, response, f, answers, partial, hands_out, same))),
              (λ (le, (signed, response, f, answers, partial, hands_out, same)).
                  asked
                  ∙ streams.1 (
                    response,
                    (open_object-ok env s3 bucket_name key start end w response).1
                        (signed, f, answers, partial),
                    hands_out,
                    same,
                  )),
            )
      ]
    where
      range : Option Range
      range = some (start, some end)

      failed :
          {error : S3Error E}
          → ◌≡◌ {A = Result S3DownloadStream (S3Error E)} (err error) (ok stream)
          → ⊥
      failed e = cc
