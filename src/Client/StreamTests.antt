-- ===== src/Client/StreamTests.antt =====
-- Reads and retried uploads of src/s3_client.rs and src/reader.rs, over the same storage.
use my_s.Base.{
  bytes_eq, if◌then◌else◌, decimal, ◌↔◌, ◌≤◌, ℕ, ◌≡◌, refl, false, List, [], ◌∷◌, none, some, Bytes,
  codes, ok, arith, inl, ready, Result, Option, sub_u64, add_u64, parse_u64, trim,
}
use my_s.Upload.State.{initial}
use my_s.Upload.Handle.{Joined}
use my_s.Download.{S3DownloadStream}
use my_s.Client.Requests.{download_file_range}
use my_s.Client.Opening.{signed_get, result_of, range_request}
use my_s.Client.Ranges.{opened, download_file_range-ok_iff}
use my_s.Client.Repeats.{
  Attempted, SentRounds, Streams, upload_streamed_with_retries, upload_with_writer_with_retries,
  upload_streamed_with_retries-SentRounds,
}
use my_s.Error.{IoError, FlUrlErrorView, FlUrlVariant}
use my_s.Reader.{S3Reader, poll_read, start_read}
use my_s.Reader
use my_s.Reader.File.{IsOpen, ReadsAt, driven}
use my_s.Reader.Storage.{Serves, future, poll_read-Serves}
use my_s.Client.Answers.{Answer}
use my_s.Client.Transport.{Sent, get, Environment}
use my_s.Client.Setting.{builder, no_content, Url, Error, env, s3, start}

-- Two bytes of an object are read through the client.
abbrev object : Bytes
object = 1 ∷ 2 ∷ 3 ∷ 4 ∷ []

abbrev file : S3Reader
file = Reader.new (codes "b") (codes "k") 4

abbrev part : Answer Error
part = record {
  status_code = 206;
  content_length = some (codes "2");
  content_type = none;
  body = ok [];
  get_body = ok tt;
}

-- A storage that answers with the part only where its bytes were asked for; the url keeps the values of
-- its headers, the last first.
abbrev to_range : Sent Url ℕ → Result (Answer Error) Error
unfolding bytes_eq
to_range (get (range ∷ url)) = if bytes_eq range (codes "bytes=0-1") then ok part else ok no_content
to_range request = ok no_content

abbrev ranges : Environment Url ℕ Error ℕ ℕ ℕ
ranges = record env {
  fl_url = record builder { with_header = λ u name value. value ∷ u };
  answer = λ before r. to_range r;
  answer_with_debug = λ before r. (to_range r, codes "REQUEST");
}

abbrev items : List (Result (Option Bytes) Error)
items = ok (some (1 ∷ 2 ∷ [])) ∷ ok none ∷ []

file-IsOpen : IsOpen object file
unfolding Reader.new
file-IsOpen = record {
  whole = refl;
  fits = omega arith;
  offset = omega arith;
  left = refl;
  left_inside = inl refl;
  flight = inl refl;
}

items-Serves : Serves ranges s3 object (driven file 2 file.pending) start items
unfolding Reader.new start_read
items-Serves = record { delivered = λ signed response answers partial. refl; fits = omega arith }

abbrev stream : S3DownloadStream
stream = record { content_length = some 2; content_type = none; received = 0 }

test_download_file_range :
    (download_file_range ranges s3 (codes "b") (codes "k") 0 (some 1) start).0 ≡ ok stream
unfolding download_file_range parse_u64 trim bytes_eq decimal
test_download_file_range = refl

download_file_range-ok_iff_example :
    ((download_file_range ranges s3 (codes "b") (codes "k") 0 (some 1) start).0 ≡ ok stream) ↔ (
      (0 ≤ 1)
      × ((signed : Url) × (response : Answer Error) × (signed_get ranges s3
              (codes "b")
              (codes "k")
              start
            ≡ ok signed)
          × (result_of ranges s3 [] (range_request ranges s3 signed 0 1) ≡ ok response)
          × (response.status_code ≡ 206)
          × (response.get_body ≡ ok tt)
          × (stream ≡ opened response)))
download_file_range-ok_iff_example =
    download_file_range-ok_iff ranges s3 (codes "b") (codes "k") 0 1 start stream

poll_read-Serves_example :
    ReadsAt object file.position 2
      (poll_read file 2 (future ranges s3 file (driven file 2 file.pending) start items))
poll_read-Serves_example =
    poll_read-Serves ranges s3 object file 2 start items file-IsOpen items-Serves

test_future :
    future ranges s3 file (driven file 2 file.pending) start items ≡ ready (ok (1 ∷ 2 ∷ []))
unfolding future Reader.new start_read sub_u64 add_u64 parse_u64 trim bytes_eq decimal
test_future = refl

abbrev view : FlUrlErrorView Error
view = record { is_timeout = λ e. false; variant = λ e. FlUrlVariant.other_variant }

abbrev produced : ℕ → Joined (Result (Unit {0}) (IoError Error))
produced n = ok (ok tt)

-- Attempt `n` streams channel number `n`; at most two retries.
upload_streamed_with_retries-SentRounds_example :
    ((x : Attempted Url ℕ Error) × (upload_streamed_with_retries view 2 env s3
          (codes "b")
          (codes "k")
          0
          1000
          (λ n. n)
          start
        ≡ some x)
      × SentRounds view 2
          (Streams view 2 env s3 (codes "b") (codes "k") 0 1000 (λ n. n))
          3
          0
          []
          x.1.sent)
    × ((x : Attempted Url ℕ Error) × (upload_with_writer_with_retries view 2 env s3
            (codes "b")
            (codes "k")
            0
            1000
            (λ n. n)
            produced
            (λ n. initial 0)
            start
          ≡ some x)
        × SentRounds view 2
            (Streams view 2 env s3 (codes "b") (codes "k") 0 1000 (λ n. n))
            3
            0
            []
            x.1.sent)
upload_streamed_with_retries-SentRounds_example =
    upload_streamed_with_retries-SentRounds view 2 env s3 (codes "b") (codes "k") 0 1000 (λ n. n)
      produced (λ n. initial 0) start
