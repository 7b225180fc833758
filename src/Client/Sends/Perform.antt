-- ===== src/Client/Sends/Perform.antt =====
-- Any operation of src/s3_client.rs sends one authentic request, or fails on its input.
use my_s.Base.{refl, none, Result, ok}
use my_s.Error.{S3Error}
use my_s.Client.Transport.{Environment, Outside, then_run, answered}
use my_s.Client.Send.{S3Client}
use my_s.Client.Requests
use my_s.Client.Calls.{
  Call, Value, perform, upload, upload_streamed, upload_with_writer, start_upload, download_file,
  download_file_range, delete_file, create_bucket, create_bucket_if_not_exists, get_bucket_location,
  check_if_bucket_exists, list_objects_v2, get_object_size, open_reader, reader,
}
use my_s.Client.Signed.{SentOne, IsAuthentic}
use my_s.Client.Sends.{
  then_run-SentOne, upload-SentOne, upload_streamed-SentOne, open_object-SentOne,
  delete_file-SentOne, create_bucket-SentOne, head-SentOne, get_body-SentOne, recovered-SentOne,
  finished-SentOneOf, started-SentOne, range-SentOne,
}

module _ {F B E R T N : Type 0} (env : Environment F B E R T N) (s3 : S3Client) where
  -- A call of the client, whatever it is and whatever the storage has answered to it and before it,
  -- hands flurl at most one request to send: one that was signed for its method and for the bytes of
  -- its own body, or as `UNSIGNED-PAYLOAD` where the body is streamed. What flurl repeats by itself
  -- counts as one. Where a call sends none it has failed on its input, or with the error of the body's
  -- producer.
  pub perform-SentOne :
      (call : Call B E) (w : Outside F B) → SentOne env s3 w.sent (perform env s3 call w)
  unfolding perform
  perform-SentOne call w = go call
    where
      value :
          {A : Type 0} (make : A → Value) (x : Result A (S3Error E) × Outside F B)
          → SentOne env s3 w.sent x
          → SentOne env s3 w.sent (then_run x (λ a. answered (ok (make a))))
      value make x one = then_run-SentOne env s3 w.sent x _ (λ a v. refl) one

      go : (call : Call B E) → SentOne env s3 w.sent (perform env s3 call w)
      go (upload bucket_name key content timeout) =
          value _ _ (upload-SentOne env s3 bucket_name key content timeout w)
      go (upload_streamed bucket_name key body length timeout) =
          value _ _ (upload_streamed-SentOne env s3 bucket_name key body length timeout w)
      go (upload_with_writer bucket_name key body length timeout produced state) =
          unfold Requests.upload_with_writer in
          value _ _ (
            finished-SentOneOf env s3 (IsAuthentic env s3) w.sent
              (Requests.upload_streamed env s3 bucket_name key body length timeout w) produced state
              (upload_streamed-SentOne env s3 bucket_name key body length timeout w))
      go (start_upload bucket_name key body length timeout state) =
          unfold Requests.start_upload in
          value _ _ (
            started-SentOne env s3 w bucket_name key state
              (Requests.upload_streamed env s3 bucket_name key body length timeout w)
              (upload_streamed-SentOne env s3 bucket_name key body length timeout w))
      go (download_file bucket_name key) =
          unfold Requests.download_file Requests.stream_of in
          value _ _ (
            then_run-SentOne env s3 w.sent _ _ (λ a v. refl)
              (open_object-SentOne env s3 bucket_name key none w))
      go (download_file_range bucket_name key start end) =
          value _ _ (range-SentOne env s3 bucket_name key start end w)
      go (delete_file bucket_name key) = value _ _ (delete_file-SentOne env s3 bucket_name key w)
      go (create_bucket bucket_name) = value _ _ (create_bucket-SentOne env s3 bucket_name w)
      go (create_bucket_if_not_exists bucket_name) =
          unfold Requests.create_bucket_if_not_exists in
          value _ _ (
            recovered-SentOne env s3 w.sent (Requests.create_bucket env s3 bucket_name w)
              (create_bucket-SentOne env s3 bucket_name w))
      go (get_bucket_location bucket_name) =
          unfold Requests.get_bucket_location in value _ _ (get_body-SentOne env s3 _ _ w)
      go (check_if_bucket_exists bucket_name) =
          unfold Requests.check_if_bucket_exists in value _ _ (head-SentOne env s3 _ _ w)
      go (list_objects_v2 bucket_name request) =
          unfold Requests.list_objects_v2 in value _ _ (get_body-SentOne env s3 _ _ w)
      go (get_object_size bucket_name key) =
          unfold Requests.get_object_size in value _ _ (head-SentOne env s3 _ _ w)
      go (open_reader bucket_name key) =
          unfold Requests.open_reader Requests.get_object_size in
          value reader _ (
            then_run-SentOne env s3 w.sent (Requests.get_object_size env s3 bucket_name key w) _
              (λ a v. refl) (head-SentOne env s3 _ _ w))
