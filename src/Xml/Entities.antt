-- ===== src/Xml/Entities.antt =====
-- `unescape` of src/xml.rs: the five predefined entities, in one pass from left to right.
pub mod RoundTrip
use my_s.Base.{
  ℕ, zero, suc, ◌<◌, ◌≤◌, ◌≡◌, ap, List, [], ◌∷◌, ◌++◌, Option, none, some, Bytes, codes, length,
  length-append, length-drop, drop, ◌==◌, if◌then◌else◌, split_at, split_at-some, starts_with,
  Option-cases, inl, inr, arith,
}

abbrev ampersand : ℕ
ampersand = b'&'

-- What each entity stands for.
abbrev pub entities : List (Bytes × ℕ)
entities =
    (codes "&amp;", b'&')
    ∷ (codes "&lt;", b'<')
    ∷ (codes "&gt;", b'>')
    ∷ (codes "&quot;", b'"')
    ∷ (codes "&apos;", b'\'')
    ∷ []

-- The first entity of the table that the text starts with.
unfoldable pub matched : List (Bytes × ℕ) → Bytes → Option (Bytes × ℕ)
unfolding starts_with
matched [] tail = none
matched ((entity, decoded) ∷ table) tail =
    if starts_with entity tail then some (entity, decoded) else matched table tail

-- One round of the loop at an `&`: what is pushed, and where the loop goes on.
unfoldable pub decode_at : Bytes → Option (Bytes × ℕ) → ℕ × Bytes
decode_at tail (some (entity, decoded)) = (decoded, drop (length entity) tail)
decode_at tail none = (ampersand, drop 1 tail)

module _ (k : Bytes → Bytes → Option Bytes) where
  -- The body of the loop: `k` is the rest of the loop.
  unfoldable pub unescape_round : Bytes → Bytes → Option (Bytes × Bytes) → Option Bytes
  unfolding decode_at matched
  unescape_round rest result none = some (result ++ rest)
  unescape_round rest result (some (before, after)) =
      let (pushed, next) = decode_at (ampersand ∷ after) (matched entities (ampersand ∷ after)) in
      k next ((result ++ before) ++ pushed ∷ [])

-- `none` means that the fuel ran out.
unfoldable pub unescape_loop : ℕ → Bytes → Bytes → Option Bytes
unfolding unescape_round split_at
unescape_loop zero rest result = none
unescape_loop (suc f) rest result =
    unescape_round (unescape_loop f) rest result (split_at ampersand rest)

-- One round for each byte is enough.
unfoldable pub unescape_within : Bytes → Option Bytes
unfolding unescape_loop
unescape_within src = unescape_loop (suc (length src)) src []

unfoldable pub or_empty : Option Bytes → Bytes
or_empty (some text) = text
or_empty none = []

unfoldable pub unescape : Bytes → Bytes
unfolding unescape_within or_empty split_at
unescape src = elim (split_at ampersand src) [
  | none ↦ src
  | some found ↦ or_empty (unescape_within src)
]

-- How XML writes a byte of text.
unfoldable pub escape_byte : ℕ → Bytes
escape_byte c =
    if c == b'&'
    then codes "&amp;"
    else if c == b'<'
    then codes "&lt;"
    else if c == b'>'
    then codes "&gt;"
    else if c == b'"'
    then codes "&quot;"
    else if c == b'\''
    then codes "&apos;"
    else c ∷ []

unfoldable pub escape : Bytes → Bytes
escape [] = []
escape (c ∷ s) = escape_byte c ++ escape s

next_shorter :
    (after : Bytes)
    → length (decode_at (ampersand ∷ after) (matched entities (ampersand ∷ after))).1 ≤ length after
unfolding decode_at matched
next_shorter after = ground (arith, length-drop 3 after, length-drop 4 after, length-drop 5 after)

-- Every round shortens the rest, so the fuel suffices.
unescape_loop-total :
    (f : ℕ) (rest result : Bytes)
    → length rest < f
    → (text : Bytes) × (unescape_loop f rest result ≡ some text)
unfolding unescape_loop unescape_round
unescape_loop-total zero rest result fuel = absurd (omega arith)
unescape_loop-total (suc f) rest result fuel = elim (Option-cases (split_at ampersand rest)) [
  | inl e ↦ (result ++ rest, rw (e, unescape_round))
  | inr ((before, after), e) ↦
      let (spelled, _) = split_at-some ampersand rest before after e in
      let (pushed, next) = decode_at (ampersand ∷ after) (matched entities (ampersand ∷ after)) in
      rw (e, unescape_round)
        (unescape_loop-total f next ((result ++ before) ++ pushed ∷ []) (
          omega (
            arith,
            next_shorter after,
            ap length spelled,
            length-append before (ampersand ∷ after),
          )))
]

-- The loop over the whole text always comes to an end.
pub unescape_within-total : (src : Bytes) → (text : Bytes) × (unescape_within src ≡ some text)
unfolding unescape_within
unescape_within-total src = unescape_loop-total (suc (length src)) src [] (omega arith)
