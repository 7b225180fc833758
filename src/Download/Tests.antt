-- ===== src/Download/Tests.antt =====
-- Downloads of src/download_stream.rs at concrete inputs.
use my_s.Base.{
  ◌≡◌, refl, [], ◌∷◌, ◌++◌, List, Option, none, some, Bytes, length, Result, ok, add_u64, arith,
}
use my_s.Download.{S3DownloadStream, get_next_chunk}
use my_s.Download.Whole.{chunks, Covers, read_to_end, read_to_end-whole}

abbrev Error : Type 0
Error = Unit {0}

abbrev stream : S3DownloadStream
stream = record { content_length = some 3; content_type = none; received = 0 }

abbrev answers : List (Result (Option Bytes) Error)
answers = ok (some (1 ∷ 2 ∷ [])) ∷ ok (some (3 ∷ [])) ∷ ok none ∷ []

abbrev whole : Bytes
whole = 1 ∷ 2 ∷ 3 ∷ []

read_to_end-whole_example :
    (whole ≡ [] ++ chunks answers) × Covers (length whole) stream.content_length
unfolding read_to_end get_next_chunk add_u64
read_to_end-whole_example = read_to_end-whole answers stream [] whole refl refl (omega arith)
