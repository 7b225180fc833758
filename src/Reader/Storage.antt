-- ===== src/Reader/Storage.antt =====
-- A read of src/reader.rs down to the request: the future of `start_read`, with `download_file_range` of
-- src/s3_client.rs and the chunks of src/download_stream.rs in it.
use my_s.Base.{
  ℕ, ◌<◌, ◌≡◌, ap, refl, List, [], ◌∷◌, ◌++◌, Option, some, Bytes, length, length-append, Result,
  ok, err, Poll, ready, waiting, u64_mod, subst, arith, take,
}
use my_s.Error.{S3Error}
use my_s.Download.{S3DownloadStream}
use my_s.Download.Whole.{chunks}
use my_s.Client.Answers.{Answer}
use my_s.Client.Transport.{Environment, Outside}
use my_s.Client.Send.{S3Client}
use my_s.Client.Requests.{download_file_range}
use my_s.Client.Opening.{result_of, range_request}
use my_s.Client.Ranges.{download_file_range-ok_iff}
use my_s.Reader.{S3Reader, PendingRead, poll_read}
use my_s.Reader.Fetch.{fetch, fetch-prefix}
use my_s.Reader.File.{At, At-take, IsOpen, Honest, ReadsAt, driven}
use my_s.Reader.File.OnePoll.{poll_read-ReadsAt}

take_front : (front rest : Bytes) → take (length front) (front ++ rest) ≡ front
take_front [] rest = refl
take_front (c ∷ front) rest = ap (c ∷◌) (take_front front rest)

-- The front of what stands at a position stands there.
At-prefix :
    (object : Bytes) (position : ℕ) (front rest : Bytes)
    → At object position (front ++ rest)
    → At object position front
At-prefix object position front rest stands = subst (At object position) (take_front front rest) (
    At-take object position (length front) (front ++ rest) (omega (arith, length-append front rest))
      stands)

module _ {F B E R T N : Type 0} (env : Environment F B E R T N) (s3 : S3Client) where
  -- What the future of a read comes to, with `items` the answers of the body that it streams.
  unfoldable pub future :
      S3Reader
      → PendingRead
      → Outside F B
      → List (Result (Option Bytes) E)
      → Poll (Result Bytes (S3Error E))
  unfolding fetch download_file_range
  future r p w items =
      fetch p.requested (download_file_range env s3 r.bucket_name r.key p.start (some p.last) w).0
        items

  -- What is relied on: where the storage answers the request for the bytes from `start` to `last`, both
  -- included, with a 206, the socket delivers bytes of the object from `start` on, and fewer than 2^64.
  pub record Serves (object : Bytes) (p : PendingRead) (w : Outside F B)
      (items : List (Result (Option Bytes) E)) : Type 0 where
    pub delivered :
        (signed : F) (response : Answer E)
        → result_of env s3 w.sent (range_request env s3 signed p.start p.last) ≡ ok response
        → response.status_code ≡ 206
        → At object p.start (chunks items)
    pub fits : length (chunks items) < u64_mod

  -- What the future of a read comes to is honest.
  future-Honest :
      (object : Bytes) (r : S3Reader) (p : PendingRead) (w : Outside F B)
      (items : List (Result (Option Bytes) E))
      → Serves object p w items
      → Honest object p (future r p w items)
  unfolding future fetch
  future-Honest object r p w items serves =
      go (download_file_range env s3 r.bucket_name r.key p.start (some p.last) w).0 refl
    where
      honest :
          (s : S3DownloadStream) (outcome : Poll (Result Bytes (S3Error E)))
          → (download_file_range env s3 r.bucket_name r.key p.start (some p.last) w).0 ≡ ok s
          → fetch p.requested (ok s) items ≡ outcome
          → Honest object p outcome
      honest s waiting streams e = tt
      honest s (ready (err error)) streams e = tt
      honest s (ready (ok body)) streams e = λ same.
          let (le, (signed, response, _, answers, partial, _, fresh)) =
            (download_file_range-ok_iff env s3 r.bucket_name r.key p.start p.last w s).0 streams in
          let (rest, spelled, _) =
            fetch-prefix p.requested items s body (ap (λ t. t.received) fresh) serves.fits e in
          At-prefix object p.start body rest
            (subst (At object p.start) spelled (serves.delivered signed response answers partial))

      go :
          (answer : Result S3DownloadStream (S3Error E))
          → (download_file_range env s3 r.bucket_name r.key p.start (some p.last) w).0 ≡ answer
          → Honest object p (fetch p.requested answer items)
      go (err error) e = tt
      go (ok s) e = honest s (fetch p.requested (ok s) items) e refl

  -- One poll of a read whose request goes through the client and its stream: where the storage answers
  -- the `GET` with the header `Range: bytes=first-last` of the read in flight by a 206 only with bytes
  -- of the object from `first` on, fewer than 2^64, the read of a reader that keeps its invariant is
  -- that of a file, whatever else the storage answers, and however the stream ends.
  pub poll_read-Serves :
      (object : Bytes) (r : S3Reader) (remaining : ℕ) (w : Outside F B)
      (items : List (Result (Option Bytes) E))
      → IsOpen object r
      → Serves object (driven r remaining r.pending) w items
      → ReadsAt object r.position remaining
          (poll_read r remaining (future r (driven r remaining r.pending) w items))
  poll_read-Serves object r remaining w items opened serves =
      poll_read-ReadsAt E object r remaining _ opened
        (future-Honest object r (driven r remaining r.pending) w items serves)
