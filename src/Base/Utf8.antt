-- ===== src/Base/Utf8.antt =====
-- `std::str::from_utf8(..).is_ok()`: the well-formed sequences of UTF-8, read byte by byte.
use Prim.Native.Nat.{ℕ, zero, suc}
use mathlib.Core.Bool.{Bool, true, false, ◌&&◌}
use mathlib.Core.List.{[], ◌∷◌}
use my_s.Base.Tests.{ltb, leb, ◌==◌, if◌then◌else◌}
use my_s.Base.Text.{Bytes}

-- What has been read so far: no UTF-8, or how many continuation bytes are due, with the range of the
-- first of them.
pub data Decoded : Type 0 where
  bad : Decoded
  expect : ℕ → ℕ → ℕ → Decoded

unfoldable pub lead : ℕ → Decoded
lead a =
    if ltb a 0x80
    then expect 0 0 0
    else if ltb a 0xc2
    then bad
    else if ltb a 0xe0
    then expect 1 0x80 0xbf
    else if a == 0xe0
    then expect 2 0xa0 0xbf
    else if a == 0xed
    then expect 2 0x80 0x9f
    else if ltb a 0xf0
    then expect 2 0x80 0xbf
    else if a == 0xf0
    then expect 3 0x90 0xbf
    else if ltb a 0xf4
    then expect 3 0x80 0xbf
    else if a == 0xf4
    then expect 3 0x80 0x8f
    else bad

-- One byte, where `n` continuation bytes are due, the first within a range.
unfoldable pub utf8_step : Decoded → ℕ → Decoded
unfolding lead
utf8_step bad a = bad
utf8_step (expect zero low high) a = lead a
utf8_step (expect (suc n) low high) a = if leb low a && leb a high then expect n 0x80 0xbf else bad

at_boundary : Decoded → Bool
at_boundary bad = false
at_boundary (expect zero low high) = true
at_boundary (expect (suc n) low high) = false

unfoldable pub utf8_from : Decoded → Bytes → Bool
unfolding utf8_step at_boundary
utf8_from d [] = at_boundary d
utf8_from d (a ∷ s) = utf8_from (utf8_step d a) s

unfoldable pub is_utf8 : Bytes → Bool
unfolding utf8_from
is_utf8 s = utf8_from (expect 0 0 0) s
