-- ===== src/Reader/Tests.antt =====
-- Reads and seeks of src/reader.rs at concrete inputs.
use my_s.Base.{
  ◌<◌, ◌≡◌, ◌↔◌, ◌⊎◌, refl, inl, [], ◌∷◌, ◌++◌, List, Option, none, some, Bytes, length, Result, ok,
  Poll, ready, pos, negsuc, ◌+ℤ◌, u64_mod, arith, sub_u64, add_u64,
}
use my_s.Error.{S3Error}
use my_s.Download.{S3DownloadStream, get_next_chunk}
use my_s.Download.Whole.{chunks, Covers}
use my_s.Reader.{
  S3Reader, new, SeekFrom, start_seek, poll_complete, poll_read, resolve_offset, start_read,
}
use my_s.Reader.Fetch.{fetch, fetch-prefix}
use my_s.Reader.File.{IsOpen, ReadsAt}
use my_s.Reader.File.OnePoll.{poll_read-ReadsAt}
use my_s.Reader.Seek.{resolve_offset-ok_iff, seek-moves}

abbrev Error : Type 0
Error = Unit {0}

abbrev object : Bytes
object = 10 ∷ 20 ∷ 30 ∷ 40 ∷ []

abbrev reader : S3Reader
reader = new [] [] 4

reader-IsOpen : IsOpen object reader
unfolding new
reader-IsOpen = record {
  whole = refl;
  fits = omega arith;
  offset = omega arith;
  left = refl;
  left_inside = inl refl;
  flight = inl refl;
}

-- The storage answers the first two bytes.
abbrev two_bytes : Poll (Result Bytes (S3Error Error))
two_bytes = ready (ok (10 ∷ 20 ∷ []))

poll_read-ReadsAt_example :
    ReadsAt {E = Error} object reader.position 2 (poll_read reader 2 two_bytes)
unfolding new start_read sub_u64 add_u64
poll_read-ReadsAt_example =
    poll_read-ReadsAt Error object reader 2 two_bytes reader-IsOpen (λ same. refl)

resolve_offset-ok_iff_example :
    (resolve_offset {E = Error} 4 (negsuc 1) [] ≡ ok 2)
    ↔ ((pos 4 +ℤ negsuc 1 ≡ pos 2) × (2 < u64_mod))
resolve_offset-ok_iff_example = resolve_offset-ok_iff Error 4 (negsuc 1) [] 2

seek-moves_example :
    let s = start_seek {E = Error} reader (SeekFrom.end (negsuc 1)) in
    let t = poll_complete s.0 in
    (s.1 ≡ ok tt)
    × (t.1 ≡ 2)
    × (t.0.position ≡ 2)
    × (t.0.leftover ≡ [])
    × (t.0.seek_to ≡ none)
    × IsOpen object t.0
unfolding new ◌+ℤ◌
seek-moves_example =
    seek-moves Error object reader (SeekFrom.end (negsuc 1)) 2 reader-IsOpen refl refl refl
      (omega arith)

abbrev stream : S3DownloadStream
stream = record { content_length = some 2; content_type = none; received = 0 }

abbrev whole : Bytes
whole = 10 ∷ 20 ∷ []

abbrev answers : List (Result (Option Bytes) Error)
answers = ok (some (10 ∷ [])) ∷ ok (some (20 ∷ [])) ∷ ok none ∷ []

fetch-prefix_example :
    (rest : Bytes) × (chunks answers ≡ whole ++ rest)
    × ((2 < length whole) ⊎ ((rest ≡ []) × Covers (length whole) stream.content_length))
unfolding fetch get_next_chunk add_u64
fetch-prefix_example = fetch-prefix 2 answers stream whole refl (omega arith) refl
