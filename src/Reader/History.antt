-- ===== src/Reader/History.antt =====
-- Any history of calls of `S3Reader` of src/reader.rs, against a file that is the object.
pub mod Moves
pub mod AsFile
use my_s.Base.{
  ℕ, ◌+◌, ◌≤◌, ◌<◌, ◌≡◌, ◌⊎◌, List, [], ◌∷◌, Option, none, some, Bytes, length, Result, ok, err,
  Poll, u64_mod, ℤ, pos, ◌+ℤ◌, arith,
}
use my_s.Error.{S3Error, IoError}
use my_s.Reader.{S3Reader, SeekFrom, start, current, end, poll_read, start_seek, poll_complete}
use my_s.Reader.File.{At, IsOpen, Honest, driven}

module _ (E : Type 0) where
  -- One call of the reader: a read into `remaining` bytes of room, with what the request in flight
  -- answers, or one of the two halves of a seek.
  pub data ReaderCall : Type 0 where
    reads : ℕ → Poll (Result Bytes (S3Error E)) → ReaderCall
    starts_seek : SeekFrom → ReaderCall
    completes : ReaderCall

  -- What the caller sees of it.
  pub data Event : Type 0 where
    was_read : ℕ → Bytes → Event
    was_asked : SeekFrom → Result (Unit {0}) (IoError E) → Event
    was_completed : ℕ → Event

  unfoldable pub reader_after : S3Reader → ReaderCall → S3Reader
  unfolding poll_read start_seek poll_complete
  reader_after r (reads remaining outcome) = (poll_read r remaining outcome).reader
  reader_after r (starts_seek from) = (start_seek {E = E} r from).0
  reader_after r completes = (poll_complete r).0

  unfoldable pub event_of : S3Reader → ReaderCall → Event
  unfolding poll_read start_seek poll_complete
  event_of r (reads remaining outcome) = was_read remaining (poll_read r remaining outcome).put
  event_of r (starts_seek from) = was_asked from (start_seek r from).1
  event_of r completes = was_completed (poll_complete r).1

  unfoldable pub events : S3Reader → List ReaderCall → List Event
  unfolding event_of reader_after
  events r [] = []
  events r (c ∷ cs) = event_of r c ∷ events (reader_after r c) cs

  -- What is relied on: the storage is honest, a seek that was started is completed before the next
  -- read, and an offset has 64 bits.
  abbrev pub IsFairCall : Bytes → S3Reader → ReaderCall → Type 0
  IsFairCall object r (reads remaining outcome) =
      (r.seek_to ≡ none) × Honest object (driven r remaining r.pending) outcome
  IsFairCall object r (starts_seek (start offset)) = offset < u64_mod
  IsFairCall object r (starts_seek (current delta)) = Unit {0}
  IsFairCall object r (starts_seek (end delta)) = Unit {0}
  IsFairCall object r completes = Unit {0}

  abbrev pub IsFair : Bytes → S3Reader → List ReaderCall → Type 0
  IsFair object r [] = Unit {0}
  IsFair object r (c ∷ cs) = IsFairCall object r c × IsFair object (reader_after r c) cs

  -- The offset that a seek means in a file of `size` bytes at `position`.
  abbrev pub file_offset : ℕ → ℕ → SeekFrom → ℤ
  file_offset size position (start offset) = pos offset
  file_offset size position (current delta) = pos position +ℤ delta
  file_offset size position (end delta) = pos size +ℤ delta

  -- The events of a file that holds `object`, at `position` and with `target` the seek in progress:
  -- a read hands out the bytes at the position, no more than fit, and moves by as many; a seek that
  -- is accepted moves to the offset it means once it is completed, and one that is refused moves
  -- nothing.
  abbrev pub IsFile : Bytes → ℕ → Option ℕ → List Event → Type 0
  IsFile object position target [] = Unit {0}
  IsFile object position target (was_read remaining put ∷ es) =
      At object position put
      × ((length put ≤ remaining) × IsFile object (position + length put) target es)
  IsFile object position target (was_asked from (ok done) ∷ es) =
      (target ≡ none)
      × ((aim : ℕ) × ((file_offset (length object) position from ≡ pos aim)
            × IsFile object position (some aim) es))
  IsFile object position target (was_asked from (err error) ∷ es) = IsFile object position target es
  IsFile object position (some aim) (was_completed answer ∷ es) =
      (answer ≡ aim) × IsFile object aim none es
  IsFile object position none (was_completed answer ∷ es) =
      (answer ≡ position) × IsFile object position none es

  -- Between two calls, with or without a seek in progress.
  pub record IsSteady (object : Bytes) (r : S3Reader) : Type 0 where
    pub opened : IsOpen object r
    pub seeking :
        (r.seek_to ≡ none)
        ⊎ ((aim : ℕ) × (r.seek_to ≡ some aim) × (aim < u64_mod) × (r.pending ≡ none))
