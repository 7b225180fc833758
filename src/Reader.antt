-- ===== src/Reader.antt =====
-- src/reader.rs: one object as a random-access source, `AsyncRead` and `AsyncSeek`.
-- The `GET` in flight is a boxed future: `PendingRead` holds what it was started with, and the answer
-- of a poll is an argument of `poll_read`. `Fetch` models the future itself.
pub mod Fetch
pub mod File
pub mod Seek
pub mod History
pub mod Storage
mod HistoryTests
mod Tests
use my_s.Base.{
  ℕ, ◌+◌, ◌-◌, min, ◌||◌, [], Option, none, some, ◌++◌, Bytes, codes, decimal, length, take, drop,
  is_empty, ltb, leb, ◌==◌, if◌then◌else◌, Result, ok, err, Poll, ready, waiting, add_u64, sub_u64,
  u64_mod, ℤ, pos, negsuc, ◌+ℤ◌, suc,
}
use my_s.Error.{
  S3Error, IoError, message, unexpected_eof, invalid_data, invalid_input, other, to_io_error,
}

-- A ranged `GET` in flight: its inclusive offsets, and the length that was asked for.
pub record PendingRead : Type 0 where
  pub start : ℕ
  pub last : ℕ
  pub requested : ℕ

pub record S3Reader : Type 0 where
  pub bucket_name : Bytes
  pub key : Bytes
  pub size : ℕ
  pub position : ℕ
  pub pending : Option PendingRead
  pub leftover : Bytes
  pub seek_to : Option ℕ

unfoldable pub new : Bytes → Bytes → ℕ → S3Reader
new bucket_name key size = record {
  bucket_name = bucket_name;
  key = key;
  size = size;
  position = 0;
  pending = none;
  leftover = [];
  seek_to = none;
}

-- What a read returns: the reader after it, the bytes put into the caller's buffer, and the answer.
pub record Read (E : Type 0) : Type 0 where
  pub reader : S3Reader
  pub put : Bytes
  pub answer : Poll (Result (Unit {0}) (IoError E))

pub wrong_length_text : S3Reader → ℕ → Bytes → Bytes
wrong_length_text r requested body =
    codes "S3Reader: asked "
    ++ r.bucket_name
    ++ codes "/"
    ++ r.key
    ++ codes " for "
    ++ decimal requested
    ++ codes " bytes at offset "
    ++ decimal r.position
    ++ codes " and the body was "
    ++ decimal (length body)
    ++ codes " bytes"

-- `start_read`, for a buffer with `remaining` bytes of room.
unfoldable pub start_read : S3Reader → ℕ → PendingRead
start_read r remaining =
    let requested = min remaining (sub_u64 r.size r.position) in
    record {
      start = r.position;
      last = sub_u64 (add_u64 r.position requested) 1;
      requested = requested;
    }

module _ {E : Type 0} where
  -- `drain_leftover`, as the end of a read.
  unfoldable pub drain_leftover : S3Reader → ℕ → Read E
  drain_leftover r remaining =
      let taken = min (length r.leftover) remaining in
      record {
        reader = record r { leftover = drop taken r.leftover; position = add_u64 r.position taken };
        put = take taken r.leftover;
        answer = ready (ok tt);
      }

  -- A read that puts nothing into the buffer.
  abbrev pub nothing : S3Reader → Poll (Result (Unit {0}) (IoError E)) → Read E
  nothing r answer = record { reader = r; put = []; answer = answer }

  -- The future has answered with a body.
  unfoldable pub take_body : S3Reader → PendingRead → ℕ → Bytes → Read E
  unfolding drain_leftover
  take_body r p remaining body =
      if ltb (length body) p.requested
      then nothing r (ready (err (message unexpected_eof (wrong_length_text r p.requested body))))
      else if ltb p.requested (length body)
      then nothing r (ready (err (message invalid_data (wrong_length_text r p.requested body))))
      else drain_leftover (record r { leftover = body }) remaining

  -- One poll of the future, whose slot has been cleared.
  unfoldable pub poll_future : S3Reader → PendingRead → ℕ → Poll (Result Bytes (S3Error E)) → Read E
  unfolding take_body
  poll_future r p remaining waiting = nothing (record r { pending = some p }) waiting
  poll_future r p remaining (ready (err error)) = nothing r (ready (err (to_io_error error)))
  poll_future r p remaining (ready (ok body)) = take_body r p remaining body

  -- `poll_read` with nothing left over.
  unfoldable pub read_more :
      S3Reader → Option PendingRead → ℕ → Poll (Result Bytes (S3Error E)) → Read E
  unfolding poll_future start_read
  read_more r (some p) remaining outcome =
      poll_future (record r { pending = none }) p remaining outcome
  read_more r none remaining outcome =
      if leb r.size r.position || remaining == 0
      then nothing r (ready (ok tt))
      else poll_future (record r { pending = none }) (start_read r remaining) remaining outcome

  unfoldable pub poll_read : S3Reader → ℕ → Poll (Result Bytes (S3Error E)) → Read E
  unfolding drain_leftover read_more
  poll_read r remaining outcome =
      if is_empty r.leftover
      then read_more r r.pending remaining outcome
      else drain_leftover r remaining

-- `SeekFrom`: an offset from the start, or an `i64` from the position or from the end.
pub data SeekFrom : Type 0 where
  start : ℕ → SeekFrom
  current : ℤ → SeekFrom
  end : ℤ → SeekFrom

signed : ℤ → Bytes
signed (pos n) = decimal n
signed (negsuc n) = codes "-" ++ decimal (suc n)

pub before_start_text : ℕ → ℤ → Bytes → ℤ → Bytes
before_start_text base delta base_name target =
    codes "S3Reader: seeking "
    ++ signed delta
    ++ codes " from the "
    ++ base_name
    ++ codes " ("
    ++ decimal base
    ++ codes ") lands at "
    ++ signed target
    ++ codes ", before the start of the object"

pub overflow_text : ℕ → ℤ → Bytes → Bytes
overflow_text base delta base_name =
    codes "S3Reader: seeking "
    ++ signed delta
    ++ codes " from the "
    ++ base_name
    ++ codes " ("
    ++ decimal base
    ++ codes ") overflows a 64-bit offset"

pub in_flight_text : Bytes
in_flight_text =
    codes
      "S3Reader: cannot seek while a read is still in flight - poll the read to completion before seeking"

pub seeking_text : Bytes
seeking_text =
    codes "S3Reader: a seek is already in progress - poll_complete it before starting another"

module _ {E : Type 0} where
  -- `resolve_offset` from its sum on: an `i128` holds every sum of a `u64` and an `i64`.
  unfoldable pub checked_offset : ℕ → ℤ → Bytes → ℤ → Result ℕ (IoError E)
  checked_offset base delta base_name (negsuc n) =
      err (message invalid_input (before_start_text base delta base_name (negsuc n)))
  checked_offset base delta base_name (pos n) =
      if ltb n u64_mod
      then ok n
      else err (message invalid_input (overflow_text base delta base_name))

  unfoldable pub resolve_offset : ℕ → ℤ → Bytes → Result ℕ (IoError E)
  unfolding checked_offset
  resolve_offset base delta base_name = checked_offset base delta base_name (pos base +ℤ delta)

  unfoldable pub seek_target : S3Reader → SeekFrom → Result ℕ (IoError E)
  unfolding resolve_offset
  seek_target r (start offset) = ok offset
  seek_target r (current delta) = resolve_offset r.position delta (codes "current position")
  seek_target r (end delta) = resolve_offset r.size delta (codes "end of the object")

  pub set_target : S3Reader → Result ℕ (IoError E) → S3Reader × Result (Unit {0}) (IoError E)
  set_target r (err error) = (r, err error)
  set_target r (ok target) = (record r { seek_to = some target }, ok tt)

  unfoldable pub start_seek : S3Reader → SeekFrom → S3Reader × Result (Unit {0}) (IoError E)
  unfolding seek_target set_target
  start_seek r from = elim r.pending [
    | some p ↦ (r, err (message other in_flight_text))
    | none ↦ elim r.seek_to [
      | some target ↦ (r, err (message other seeking_text))
      | none ↦ set_target r (seek_target r from)
    ]
  ]

-- The reader after `poll_complete`, and the position that it answers.
unfoldable pub poll_complete : S3Reader → S3Reader × ℕ
poll_complete r = elim r.seek_to [
  | none ↦ (r, r.position)
  | some target ↦ (record r { position = target; leftover = []; seek_to = none }, target)
]
