-- ===== src/Base/Parse.antt =====
-- `str::trim` and `str::parse::<u64>` of the language's library, over the bytes of the text.
use Prim.Native.Nat.{ℕ, ◌+◌, ◌-◌, ◌*◌}
use mathlib.Core.Bool.{Bool, ◌&&◌, ◌||◌}
use mathlib.Core.Option.{Option, none, some}
use mathlib.Core.List.{[], ◌∷◌, reverse}
use my_s.Base.Tests.{ltb, leb, ◌==◌, if◌then◌else◌}
use my_s.Base.Text.{Bytes}
use my_s.Base.Word.{u64_mod}

between : ℕ → ℕ → ℕ → Bool
between lo hi c = leb lo c && leb c hi

-- White space of one byte, of two (U+0085, U+00A0), and of three (U+1680, U+2000 to U+200A, U+2028,
-- U+2029, U+202F, U+205F, U+3000).
space1 : ℕ → Bool
unfolding between
space1 a = between 9 13 a || a == 32

space2 : ℕ → ℕ → Bool
space2 a b = a == 0xc2 && (b == 0x85 || b == 0xa0)

space3 : ℕ → ℕ → ℕ → Bool
unfolding between
space3 a b c =
    (a == 0xe1 && b == 0x9a && c == 0x80)
    || (a == 0xe2 && b == 0x80 && (between 0x80 0x8a c || c == 0xa8 || c == 0xa9 || c == 0xaf))
    || (a == 0xe2 && b == 0x81 && c == 0x9f)
    || (a == 0xe3 && b == 0x80 && c == 0x80)

unfoldable pub trim_start : Bytes → Bytes
unfolding space1 space2 space3
trim_start [] = []
trim_start (a ∷ []) = if space1 a then [] else a ∷ []
trim_start (a ∷ b ∷ []) =
    let rest = trim_start (b ∷ []) in
    if space1 a then rest else if space2 a b then [] else a ∷ b ∷ []
trim_start (a ∷ b ∷ c ∷ s) =
    let one = trim_start (b ∷ c ∷ s) in
    let two = trim_start (c ∷ s) in
    let three = trim_start s in
    if space1 a
    then one
    else if space2 a b
    then two
    else if space3 a b c
    then three
    else a ∷ b ∷ c ∷ s

-- The same from the end, over the reversed text.
trim_back : Bytes → Bytes
unfolding space1 space2 space3
trim_back [] = []
trim_back (a ∷ []) = if space1 a then [] else a ∷ []
trim_back (b ∷ a ∷ []) =
    let rest = trim_back (a ∷ []) in
    if space1 b then rest else if space2 a b then [] else b ∷ a ∷ []
trim_back (c ∷ b ∷ a ∷ s) =
    let one = trim_back (b ∷ a ∷ s) in
    let two = trim_back (a ∷ s) in
    let three = trim_back s in
    if space1 c
    then one
    else if space2 b c
    then two
    else if space3 a b c
    then three
    else c ∷ b ∷ a ∷ s

unfoldable pub trim : Bytes → Bytes
unfolding trim_start trim_back
trim s = reverse (trim_back (reverse (trim_start s)))

-- The digits of a number behind `n`, or none on any other byte and on overflow.
unfoldable pub scan_digits : Bytes → ℕ → Option ℕ
scan_digits [] n = some n
scan_digits (c ∷ s) n =
    let m = n * 10 + (c - b'0') in
    let rest = scan_digits s m in
    if ltb c b'0' || ltb b'9' c then none else if ltb m u64_mod then rest else none

scan_number : Bytes → Option ℕ
unfolding scan_digits
scan_number [] = none
scan_number (c ∷ s) = scan_digits (c ∷ s) 0

-- A leading `+` is allowed, and at least one digit is wanted.
unfoldable pub parse_u64 : Bytes → Option ℕ
unfolding scan_number
parse_u64 [] = none
parse_u64 (c ∷ s) = if c == b'+' then scan_number s else scan_number (c ∷ s)
