-- ===== src/Client/Requests.antt =====
-- The operations of `S3Client` in src/s3_client.rs, from the url to the result.
use my_s.Base.{ℕ, Bool, Option, none, some, [], Bytes, codes, ltb, if◌then◌else◌, Result, ok, err}
use my_s.Error.{other_error}
use my_s.Region.{S3Region}
use my_s.Listing.{S3ListObjectsPage}
use my_s.Listing.Loops.{parse_list_objects_v2}
use my_s.Download.{S3DownloadStream, from_response}
use my_s.Reader.{S3Reader}
use my_s.Reader
use my_s.Upload.State.{UploadWriterState}
use my_s.Upload.Handle.{Joined, finish_upload_with_writer, upload_task}
use my_s.Error.{IoError}
use my_s.Client.Answers.{Answer, create_bucket_configuration, parse_bucket_location}
use my_s.Client.Objects.{Range, range_header, opened_answer, invalid_range_text}
use my_s.Client.Objects
use my_s.Client.Transport.{from_raw_data, Environment, Io, ◌>>=◌, ◌>>◌, answered, lifted}
use my_s.Client.Send.{
  S3Client, unsigned_payload, sign_request, sign_request_with_payload_hash, send_get, send_head,
  send_delete, send_put, send_put_streamed, trace_response, read_success_body, expect_success,
}
use my_s.Client.Payloads.{
  S3ListObjectsRequest, list_query, path_and_query, signed_payload, body_of, read_of_failure,
  page_within,
}

module _ {F B E R T N : Type 0} (env : Environment F B E R T N) where
  unfoldable pub object_url : S3Client → Bytes → Bytes → F
  object_url s3 bucket_name key =
      env.fl_url.append_path_segment
        (env.fl_url.append_path_segment (env.fl_url.create s3.endpoint) bucket_name) key

  unfoldable pub bucket_url : S3Client → Bytes → F
  bucket_url s3 bucket_name =
      env.fl_url.append_path_segment (env.fl_url.create s3.endpoint) bucket_name

  unfoldable pub with_range : F → Option Range → F
  unfolding range_header
  with_range fl_url none = fl_url
  with_range fl_url (some range) =
      env.fl_url.with_header fl_url (codes "Range") (range_header range)

  unfoldable pub upload : S3Client → Bytes → Bytes → Bytes → ℕ → Io F B E (Unit {0})
  unfolding object_url sign_request send_put expect_success
  upload s3 bucket_name key content upload_timeout = do
    let fl_url =
        env.fl_url.with_retries
          (env.fl_url.set_timeout (object_url s3 bucket_name key) upload_timeout) 3
    fl_url ← sign_request env s3 fl_url (codes "PUT") content
    response ← send_put env s3 fl_url (from_raw_data content none)
    expect_success env s3 response

  unfoldable pub upload_streamed : S3Client → Bytes → Bytes → B → ℕ → ℕ → Io F B E (Unit {0})
  unfolding object_url sign_request_with_payload_hash send_put_streamed expect_success
  upload_streamed s3 bucket_name key body content_length upload_timeout = do
    let fl_url = env.fl_url.set_timeout (object_url s3 bucket_name key) upload_timeout
    fl_url ← sign_request_with_payload_hash env s3 fl_url (codes "PUT") unsigned_payload
    response ← send_put_streamed env s3 fl_url body content_length
    expect_success env s3 response

  unfoldable pub open_object : S3Client → Bytes → Bytes → Option Range → Io F B E (Answer E)
  unfolding object_url sign_request with_range send_get lifted read_of_failure trace_response
      opened_answer
  open_object s3 bucket_name key range = do
    let fl_url = env.fl_url.with_retries (object_url s3 bucket_name key) 3
    fl_url ← sign_request env s3 fl_url (codes "GET") []
    response ← send_get env s3 (with_range fl_url range)
    body ← answered (lifted (read_of_failure range response))
    trace_response env s3 response.status_code body
    answered (opened_answer env.xml range response)

  -- `S3DownloadStream::from_response` on an answer.
  unfoldable pub stream_of : Answer E → Io F B E S3DownloadStream
  unfolding from_response
  stream_of response =
      answered (from_response response.content_length response.content_type response.get_body)

  unfoldable pub download_file : S3Client → Bytes → Bytes → Io F B E S3DownloadStream
  unfolding open_object stream_of
  download_file s3 bucket_name key = do
    response ← open_object s3 bucket_name key none
    stream_of response

  unfoldable pub download_file_range :
      S3Client → Bytes → Bytes → ℕ → Option ℕ → Io F B E S3DownloadStream
  unfolding open_object stream_of
  download_file_range s3 bucket_name key start none = do
    response ← open_object s3 bucket_name key (some (start, none))
    stream_of response
  download_file_range s3 bucket_name key start (some end) =
      if ltb end start
      then answered (err (other_error (invalid_range_text start end)))
      else (open_object s3 bucket_name key (some (start, some end)) >>= stream_of)

  unfoldable pub delete_file : S3Client → Bytes → Bytes → Io F B E (Unit {0})
  unfolding object_url sign_request send_delete expect_success
  delete_file s3 bucket_name key = do
    let fl_url = env.fl_url.with_retries (object_url s3 bucket_name key) 3
    fl_url ← sign_request env s3 fl_url (codes "DELETE") []
    response ← send_delete env s3 fl_url
    expect_success env s3 response

  unfoldable pub create_bucket : S3Client → Bytes → Io F B E (Unit {0})
  unfolding bucket_url create_bucket_configuration signed_payload body_of sign_request send_put
      expect_success
  create_bucket s3 bucket_name = do
    let fl_url = env.fl_url.with_retries (bucket_url s3 bucket_name) 3
    let configuration = create_bucket_configuration s3.region
    fl_url ← sign_request env s3 fl_url (codes "PUT") (signed_payload configuration)
    response ← send_put env s3 fl_url (body_of configuration)
    expect_success env s3 response

  unfoldable pub create_bucket_if_not_exists : S3Client → Bytes → Io F B E (Unit {0})
  unfolding create_bucket Objects.create_bucket_if_not_exists
  create_bucket_if_not_exists s3 bucket_name w =
      let (result, after) = create_bucket s3 bucket_name w in
      (Objects.create_bucket_if_not_exists result, after)

  unfoldable pub get_bucket_location : S3Client → Bytes → Io F B E S3Region
  unfolding bucket_url sign_request send_get read_success_body parse_bucket_location
  get_bucket_location s3 bucket_name = do
    let fl_url =
        env.fl_url.with_retries
          (env.fl_url.append_query_param (bucket_url s3 bucket_name) (codes "location") none) 3
    fl_url ← sign_request env s3 fl_url (codes "GET") []
    response ← send_get env s3 fl_url
    body ← read_success_body env s3 response
    answered (parse_bucket_location env.xml body)

  unfoldable pub check_if_bucket_exists : S3Client → Bytes → Io F B E Bool
  unfolding bucket_url sign_request send_head trace_response Objects.check_if_bucket_exists
  check_if_bucket_exists s3 bucket_name = do
    let fl_url = env.fl_url.with_retries (bucket_url s3 bucket_name) 3
    fl_url ← sign_request env s3 fl_url (codes "HEAD") []
    response ← send_head env s3 fl_url
    trace_response env s3 response.status_code none
    answered (Objects.check_if_bucket_exists env.xml (ok response))

  unfoldable pub list_objects_v2 :
      S3Client → Bytes → S3ListObjectsRequest → Io F B E (Option S3ListObjectsPage)
  unfolding list_query path_and_query sign_request send_get read_success_body parse_list_objects_v2
      page_within
  list_objects_v2 s3 bucket_name request = do
    let fl_url =
        env.fl_url.with_retries
          (env.fl_url.append_raw_ending_to_url (env.fl_url.create s3.endpoint)
            (path_and_query bucket_name (list_query request)))
          3
    fl_url ← sign_request env s3 fl_url (codes "GET") []
    response ← send_get env s3 fl_url
    body ← read_success_body env s3 response
    answered (page_within (parse_list_objects_v2 env.xml body))

  unfoldable pub get_object_size : S3Client → Bytes → Bytes → Io F B E ℕ
  unfolding object_url sign_request send_head trace_response Objects.get_object_size
  get_object_size s3 bucket_name key = do
    let fl_url = env.fl_url.with_retries (object_url s3 bucket_name key) 3
    fl_url ← sign_request env s3 fl_url (codes "HEAD") []
    response ← send_head env s3 fl_url
    trace_response env s3 response.status_code none
    answered (Objects.get_object_size env.xml bucket_name key (ok response))

  unfoldable pub open_reader : S3Client → Bytes → Bytes → Io F B E S3Reader
  unfolding get_object_size Reader.new
  open_reader s3 bucket_name key = do
    size ← get_object_size s3 bucket_name key
    answered (ok (Reader.new bucket_name key size))

  -- What the producer's task comes to, and the state that it leaves, are arguments.
  unfoldable pub upload_with_writer :
      S3Client
      → Bytes
      → Bytes
      → B
      → ℕ
      → ℕ
      → Joined (Result (Unit {0}) (IoError E))
      → UploadWriterState
      → Io F B E (Unit {0})
  unfolding upload_streamed finish_upload_with_writer
  upload_with_writer s3 bucket_name key body content_length upload_timeout produce_result state w =
      let (upload_result, after) =
        upload_streamed s3 bucket_name key body content_length upload_timeout w in
      (finish_upload_with_writer upload_result produce_result state, after)

  -- The task of `start_upload` from where `body_started` has resolved, with the state at that time.
  unfoldable pub start_upload :
      S3Client → Bytes → Bytes → B → ℕ → ℕ → UploadWriterState → Io F B E (Unit {0})
  unfolding upload_streamed upload_task
  start_upload s3 bucket_name key body content_length upload_timeout state w =
      let (result, after) =
        upload_streamed s3 bucket_name key body content_length upload_timeout w in
      let (starts, answer) = upload_task state bucket_name key result in
      (answer, if starts then after else w)
