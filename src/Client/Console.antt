-- ===== src/Client/Console.antt =====
-- The console of `S3Client` in src/s3_client.rs, over every operation.
use my_s.Base.{
  ℕ, ◌&&◌, if◌then◌else◌, ◌≡◌, refl, ap, Option, some, none, List, Bytes, codes, Bool, true, false,
  ltb, Result, ok, err,
}
use my_s.Error.{S3Error}
use my_s.Upload.State.{UploadWriterState, short_body_error}
use my_s.Upload.Handle.{finish_upload_with_writer, upload_task, is_some}
use my_s.Client.Objects.{Range}
use my_s.Client.Objects
use my_s.Client.Transport.{from_raw_data, delete, put, Environment, Outside, Io, ◌>>=◌}
use my_s.Client.Send.{S3Client, debug_to_console, sign_request, send_delete, send_put}
use my_s.Client.Requests.{object_url, bucket_url}
use my_s.Client.Requests
use my_s.Client.Calls.{
  Call, Value, perform, as_value, upload, upload_streamed, upload_with_writer, start_upload,
  download_file, download_file_range, delete_file, create_bucket, create_bucket_if_not_exists,
  get_bucket_location, check_if_bucket_exists, list_objects_v2, get_object_size, open_reader,
}
use my_s.Client.Tracing.{
  Same, SameRun, IsSilent, >>=-Same, answered-Same, request-Same, get_body-Same, head-Same,
  upload_streamed-Same, open_object-Same, create_bucket-Same, expect_success-Same,
}

module _ {F B E R T N : Type 0} (env : Environment F B E R T N) (s3 : S3Client)
    (silent : IsSilent env) (off : s3.debug ≡ false) (printed : List Bytes) where
  value-Same :
      {A : Type 0} (make : A → Value) (m m' : Io F B E A)
      → Same printed m m'
      → Same printed (as_value env (debug_to_console s3) make m) (as_value env s3 make m')
  value-Same make m m' same =
      >>=-Same printed m m' _ _ same (λ a. answered-Same printed (ok (make a)))

  -- What is made of the result alone.
  result-Same :
      {A C : Type 0} (m m' : Io F B E A) (f : Result A (S3Error E) → Result C (S3Error E))
      → Same printed m m'
      → Same printed (λ w. (f (m w).0, (m w).1)) (λ w. (f (m' w).0, (m' w).1))
  result-Same m m' f same w w' sent quiet =
      let (results, requests, printing) = same w w' sent quiet in (ap f results, requests, printing)

  choose-Same :
      {A : Type 0} (b : Bool) (m m' k k' : Io F B E A)
      → Same printed m m'
      → Same printed k k'
      → Same printed (if b then m else k) (if b then m' else k')
  choose-Same true m m' k k' same_m same_k = same_m
  choose-Same false m m' k k' same_m same_k = same_k

  streamed-Same :
      (bucket_name key : Bytes) (range : Option Range)
      → Same printed
          (Requests.open_object env (debug_to_console s3) bucket_name key range
            >>= Requests.stream_of env)
          (Requests.open_object env s3 bucket_name key range >>= Requests.stream_of env)
  unfolding Requests.stream_of
  streamed-Same bucket_name key range =
      >>=-Same printed (Requests.open_object env (debug_to_console s3) bucket_name key range)
        (Requests.open_object env s3 bucket_name key range) (Requests.stream_of env)
        (Requests.stream_of env) (open_object-Same env s3 silent off printed bucket_name key range)
        (λ response. answered-Same printed _)

  range-Same :
      (bucket_name key : Bytes) (start : ℕ) (end : Option ℕ)
      → Same printed
          (Requests.download_file_range env (debug_to_console s3) bucket_name key start end)
          (Requests.download_file_range env s3 bucket_name key start end)
  unfolding Requests.download_file_range
  range-Same bucket_name key start none = streamed-Same bucket_name key (some (start, none))
  range-Same bucket_name key start (some end) =
      choose-Same (ltb end start) _ _ _ _ (answered-Same printed _)
        (streamed-Same bucket_name key (some (start, some end)))

  task-SameRun :
      (short : Bool) (e : S3Error E) (w w' : Outside F B)
      (x x' : Result (Unit {0}) (S3Error E) × Outside F B)
      → w.sent ≡ w'.sent
      → w'.console ≡ printed
      → SameRun printed x x'
      → let task : Bool × Result (Unit {0}) (S3Error E) =
          if short then (false, err e) else (true, x.0) in
        let task' : Bool × Result (Unit {0}) (S3Error E) =
          if short then (false, err e) else (true, x'.0) in
        SameRun printed (task.1, if task.0 then x.1 else w) (task'.1, if task'.0 then x'.1 else w')
  task-SameRun true e w w' x x' sent quiet same = (refl, sent, quiet)
  task-SameRun false e w w' x x' sent quiet same = same

  started-Same :
      (bucket_name key : Bytes) (body : B) (length timeout : ℕ) (state : UploadWriterState)
      → Same printed
          (Requests.start_upload env
            (debug_to_console s3)
            bucket_name
            key
            body
            length
            timeout
            state)
          (Requests.start_upload env s3 bucket_name key body length timeout state)
  unfolding Requests.start_upload upload_task
  started-Same bucket_name key body length timeout state w w' sent quiet =
      task-SameRun (state.body_ended && is_some (short_body_error {E = E} state)) _ w w' _ _ sent
        quiet
        (upload_streamed-Same env s3 silent off printed bucket_name key body length timeout w w'
          sent quiet)

  perform-Same :
      (call : Call B E)
      → Same printed (perform env (debug_to_console s3) call) (perform env s3 call)
  unfolding perform
  perform-Same (upload bucket_name key content timeout) =
      unfold Requests.upload sign_request send_put object_url debug_to_console in
      value-Same _ _ _ (
        request-Same env s3 silent off printed _ (codes "PUT") _
          (λ fl_url. put fl_url (from_raw_data content none)) _ _
          (expect_success-Same env s3 silent off printed))
  perform-Same (upload_streamed bucket_name key body length timeout) =
      value-Same _ _ _
        (upload_streamed-Same env s3 silent off printed bucket_name key body length timeout)
  perform-Same (upload_with_writer bucket_name key body length timeout produced state) =
      unfold Requests.upload_with_writer in
      value-Same _ _ _ (
        result-Same
          (Requests.upload_streamed env (debug_to_console s3) bucket_name key body length timeout)
          (Requests.upload_streamed env s3 bucket_name key body length timeout)
          (λ result. finish_upload_with_writer result produced state)
          (upload_streamed-Same env s3 silent off printed bucket_name key body length timeout))
  perform-Same (start_upload bucket_name key body length timeout state) =
      value-Same _ _ _ (started-Same bucket_name key body length timeout state)
  perform-Same (download_file bucket_name key) =
      unfold Requests.download_file in value-Same _ _ _ (streamed-Same bucket_name key none)
  perform-Same (download_file_range bucket_name key start end) =
      value-Same _ _ _ (range-Same bucket_name key start end)
  perform-Same (delete_file bucket_name key) =
      unfold Requests.delete_file sign_request send_delete object_url debug_to_console in
      value-Same _ _ _ (
        request-Same env s3 silent off printed _ (codes "DELETE") _ delete _ _
          (expect_success-Same env s3 silent off printed))
  perform-Same (create_bucket bucket_name) =
      value-Same _ _ _ (create_bucket-Same env s3 silent off printed bucket_name)
  perform-Same (create_bucket_if_not_exists bucket_name) =
      unfold Requests.create_bucket_if_not_exists in
      value-Same _ _ _ (
        result-Same (Requests.create_bucket env (debug_to_console s3) bucket_name)
          (Requests.create_bucket env s3 bucket_name) Objects.create_bucket_if_not_exists
          (create_bucket-Same env s3 silent off printed bucket_name))
  perform-Same (get_bucket_location bucket_name) =
      unfold Requests.get_bucket_location bucket_url debug_to_console in
      value-Same _ _ _ (get_body-Same env s3 silent off printed _ _)
  perform-Same (check_if_bucket_exists bucket_name) =
      unfold Requests.check_if_bucket_exists bucket_url debug_to_console in
      value-Same _ _ _ (head-Same env s3 silent off printed _ _)
  perform-Same (list_objects_v2 bucket_name request) =
      unfold Requests.list_objects_v2 debug_to_console in
      value-Same _ _ _ (get_body-Same env s3 silent off printed _ _)
  perform-Same (get_object_size bucket_name key) =
      unfold Requests.get_object_size object_url debug_to_console in
      value-Same _ _ _ (head-Same env s3 silent off printed _ _)
  perform-Same (open_reader bucket_name key) =
      unfold Requests.open_reader Requests.get_object_size object_url debug_to_console in
      value-Same _ _ _ (
        >>=-Same printed _ _ _ _ (head-Same env s3 silent off printed _ _)
          (λ size. answered-Same printed _))

module _ {F B E R T N : Type 0} (env : Environment F B E R T N) (s3 : S3Client)
    (silent : IsSilent env) (off : s3.debug ≡ false) where
  -- Over a flurl that answers a request the same whether or not it writes it down, every call of a
  -- client that traces to the console has the result, and sends the requests, that it has without the
  -- tracing; and a client that does not trace prints nothing.
  pub perform-debug_to_console :
      (call : Call B E) (w : Outside F B)
      → ((perform env (debug_to_console s3) call w).0 ≡ (perform env s3 call w).0)
        × ((perform env (debug_to_console s3) call w).1.sent ≡ (perform env s3 call w).1.sent)
        × ((perform env s3 call w).1.console ≡ w.console)
  perform-debug_to_console call w = perform-Same env s3 silent off w.console call w w refl refl
