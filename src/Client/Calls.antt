-- ===== src/Client/Calls.antt =====
-- The public operations of `S3Client` in src/s3_client.rs as data, and their execution.
use my_s.Base.{ℕ, Bool, Option, Bytes, Result, ok}
use my_s.Error.{IoError}
use my_s.Region.{S3Region}
use my_s.Listing.{S3ListObjectsPage}
use my_s.Download.{S3DownloadStream}
use my_s.Reader.{S3Reader}
use my_s.Upload.State.{UploadWriterState}
use my_s.Upload.Handle.{Joined}
use my_s.Client.Transport.{Environment, Io, ◌>>=◌, answered}
use my_s.Client.Send.{S3Client}
use my_s.Client.Payloads.{S3ListObjectsRequest}
use my_s.Client.Requests

-- One call, with its arguments. `B` is the receiving end of an upload's body.
pub data Call (B E : Type 0) : Type 0 where
  upload : Bytes → Bytes → Bytes → ℕ → Call B E
  upload_streamed : Bytes → Bytes → B → ℕ → ℕ → Call B E
  upload_with_writer :
      Bytes
      → Bytes
      → B
      → ℕ
      → ℕ
      → Joined (Result (Unit {0}) (IoError E))
      → UploadWriterState
      → Call B E
  start_upload : Bytes → Bytes → B → ℕ → ℕ → UploadWriterState → Call B E
  download_file : Bytes → Bytes → Call B E
  download_file_range : Bytes → Bytes → ℕ → Option ℕ → Call B E
  delete_file : Bytes → Bytes → Call B E
  create_bucket : Bytes → Call B E
  create_bucket_if_not_exists : Bytes → Call B E
  get_bucket_location : Bytes → Call B E
  check_if_bucket_exists : Bytes → Call B E
  list_objects_v2 : Bytes → S3ListObjectsRequest → Call B E
  get_object_size : Bytes → Bytes → Call B E
  open_reader : Bytes → Bytes → Call B E

pub data Value : Type 0 where
  done : Value
  stream : S3DownloadStream → Value
  region : S3Region → Value
  exists : Bool → Value
  page : Option S3ListObjectsPage → Value
  size : ℕ → Value
  reader : S3Reader → Value

module _ {F B E R T N : Type 0} (env : Environment F B E R T N) (s3 : S3Client) where
  -- The result of a call, as a value.
  abbrev pub as_value : {A : Type 0} → (A → Value) → Io F B E A → Io F B E Value
  as_value make m = m >>= λ a. answered (ok (make a))

  unfoldable pub perform : Call B E → Io F B E Value
  unfolding Requests.upload Requests.upload_streamed Requests.upload_with_writer
      Requests.start_upload Requests.download_file Requests.download_file_range Requests.delete_file
      Requests.create_bucket Requests.create_bucket_if_not_exists Requests.get_bucket_location
      Requests.check_if_bucket_exists Requests.list_objects_v2 Requests.get_object_size
      Requests.open_reader
  perform (upload bucket_name key content timeout) =
      as_value (λ a. done) (Requests.upload env s3 bucket_name key content timeout)
  perform (upload_streamed bucket_name key body length timeout) =
      as_value (λ a. done) (Requests.upload_streamed env s3 bucket_name key body length timeout)
  perform (upload_with_writer bucket_name key body length timeout produced state) =
      as_value (λ a. done)
        (Requests.upload_with_writer env s3 bucket_name key body length timeout produced state)
  perform (start_upload bucket_name key body length timeout state) =
      as_value (λ a. done) (Requests.start_upload env s3 bucket_name key body length timeout state)
  perform (download_file bucket_name key) =
      as_value stream (Requests.download_file env s3 bucket_name key)
  perform (download_file_range bucket_name key start end) =
      as_value stream (Requests.download_file_range env s3 bucket_name key start end)
  perform (delete_file bucket_name key) =
      as_value (λ a. done) (Requests.delete_file env s3 bucket_name key)
  perform (create_bucket bucket_name) =
      as_value (λ a. done) (Requests.create_bucket env s3 bucket_name)
  perform (create_bucket_if_not_exists bucket_name) =
      as_value (λ a. done) (Requests.create_bucket_if_not_exists env s3 bucket_name)
  perform (get_bucket_location bucket_name) =
      as_value region (Requests.get_bucket_location env s3 bucket_name)
  perform (check_if_bucket_exists bucket_name) =
      as_value exists (Requests.check_if_bucket_exists env s3 bucket_name)
  perform (list_objects_v2 bucket_name request) =
      as_value page (Requests.list_objects_v2 env s3 bucket_name request)
  perform (get_object_size bucket_name key) =
      as_value size (Requests.get_object_size env s3 bucket_name key)
  perform (open_reader bucket_name key) =
      as_value reader (Requests.open_reader env s3 bucket_name key)
