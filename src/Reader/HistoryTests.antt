-- ===== src/Reader/HistoryTests.antt =====
-- Histories of `S3Reader` of src/reader.rs at concrete inputs.
use my_s.Base.{
  ◌≡◌, refl, List, [], ◌∷◌, none, Bytes, codes, length, ok, ready, waiting, add_u64, sub_u64, arith,
}
use my_s.Reader.{new, start, start_read, poll_read, start_seek, seek_target, poll_complete}
use my_s.Reader.History.{
  ReaderCall, reads, starts_seek, completes, was_read, was_asked, was_completed, events, event_of,
  reader_after, IsFair, IsFile,
}
use my_s.Reader.History.AsFile.{new-IsFile}

abbrev Error : Type 0
Error = Unit {0}

abbrev object : Bytes
object = 1 ∷ 2 ∷ 3 ∷ 4 ∷ []

-- Two bytes are read, then a seek to the last one, and a read with room for more.
abbrev calls : List (ReaderCall Error)
calls =
    reads 2 (ready (ok (1 ∷ 2 ∷ [])))
    ∷ starts_seek (start 3)
    ∷ completes
    ∷ reads 5 (ready (ok (4 ∷ [])))
    ∷ []

fair : IsFair Error object (new (codes "b") (codes "k") 4) calls
unfolding new start_read reader_after poll_read start_seek seek_target poll_complete add_u64 sub_u64
fair = ((refl, λ e. refl), (omega arith, (tt, ((refl, λ e. refl), tt))))

test_events :
    events Error (new (codes "b") (codes "k") 4) calls
    ≡ was_read 2 (1 ∷ 2 ∷ [])
      ∷ was_asked (start 3) (ok tt)
      ∷ was_completed 3
      ∷ was_read 5 (4 ∷ [])
      ∷ []
unfolding events event_of reader_after new start_read poll_read start_seek seek_target poll_complete
    add_u64 sub_u64
test_events = refl

new-IsFile_example :
    IsFile Error object 0 none (events Error (new (codes "b") (codes "k") (length object)) calls)
new-IsFile_example = new-IsFile Error object (codes "b") (codes "k") calls (omega arith) fair

-- A read that is started while a seek is in progress outlives the seek: the byte it was sent for is
-- handed out at the new position.
test_read_under_seek :
    events Error (new (codes "b") (codes "k") 4) (
      starts_seek (start 3)
      ∷ reads 1 waiting
      ∷ completes
      ∷ reads 1 (ready (ok (1 ∷ [])))
      ∷ completes
      ∷ [])
    ≡ was_asked (start 3) (ok tt)
      ∷ was_read 1 []
      ∷ was_completed 3
      ∷ was_read 1 (1 ∷ [])
      ∷ was_completed 4
      ∷ []
unfolding events event_of reader_after new start_read poll_read start_seek seek_target poll_complete
    add_u64 sub_u64
test_read_under_seek = refl
