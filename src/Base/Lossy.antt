-- ===== src/Base/Lossy.antt =====
-- `String::from_utf8_lossy` of the language's library.
use Prim.Native.Nat.{ℕ, zero, suc}
use mathlib.Core.List.{[], ◌∷◌, ◌++◌}
use my_s.Base.Text.{Bytes}
use my_s.Base.Utf8.{Decoded, bad, expect, lead, utf8_step}

-- U+FFFD.
abbrev replacement : Bytes
replacement = 0xef ∷ 0xbf ∷ 0xbd ∷ []

record Decoding : Type 0 where
  output : Bytes
  -- The bytes of a sequence that has begun.
  pending : Bytes
  expected : Decoded

-- A byte that continues `pending`, where that byte leads to `expected`.
advanced : Bytes → Bytes → ℕ → Decoded → Decoding
advanced out pending a bad = record {
  output = out ++ replacement;
  pending = [];
  expected = expect 0 0 0;
}
advanced out pending a (expect zero low high) = record {
  output = out ++ pending ++ a ∷ [];
  pending = [];
  expected = expect 0 0 0;
}
advanced out pending a (expect (suc n) low high) = record {
  output = out;
  pending = pending ++ a ∷ [];
  expected = expect (suc n) low high;
}

-- A byte that breaks off a sequence is replaced together with nothing of what follows: it is read
-- again as a first byte.
restarted : Bytes → Bytes → ℕ → Decoded → Decoding
unfolding advanced lead
restarted out [] a next = advanced out [] a next
restarted out (b ∷ pending) a bad = advanced (out ++ replacement) [] a (lead a)
restarted out (b ∷ pending) a (expect n low high) = advanced out (b ∷ pending) a (expect n low high)

finished : Bytes → Bytes → Bytes
finished out [] = out
finished out (b ∷ pending) = out ++ replacement

lossy_from : Decoding → Bytes → Bytes
unfolding restarted utf8_step finished
lossy_from d [] = finished d.output d.pending
lossy_from d (a ∷ s) = lossy_from (restarted d.output d.pending a (utf8_step d.expected a)) s

unfoldable pub from_utf8_lossy : Bytes → Bytes
unfolding lossy_from
from_utf8_lossy s = lossy_from (record { output = []; pending = []; expected = expect 0 0 0 }) s
