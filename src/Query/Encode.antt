-- ===== src/Query/Encode.antt =====
-- `encode_uri_component` of src/utils.rs, against the decoder of RFC 3986.
use my_s.Base.{
  ℕ, ◌+◌, ◌-◌, ◌*◌, ◌/◌, ◌%◌, ◌<◌, ◌≡◌, refl, ap, ◌∙◌, ◌⊎◌, inl, inr, Bool, true, false, ◌||◌, ◌&&◌,
  [], ◌∷◌, ◌++◌, Bytes, ltb, leb, ◌==◌, if◌then◌else◌, Bool-cases, if-true, if-false, subst, sym,
  arith, Lacks,
}

unfoldable pub is_unreserved : ℕ → Bool
is_unreserved c =
    (leb b'A' c && leb c b'Z')
    || (leb b'a' c && leb c b'z')
    || (leb b'0' c && leb c b'9')
    || c == b'-'
    || c == b'_'
    || c == b'.'
    || c == b'~'

-- `HEX[d]`.
unfoldable pub hex : ℕ → ℕ
hex d = if ltb d 10 then b'0' + d else b'A' + (d - 10)

unfoldable pub encode_byte : ℕ → Bytes
unfolding is_unreserved hex
encode_byte c = if is_unreserved c then c ∷ [] else b'%' ∷ hex (c / 16) ∷ hex (c % 16) ∷ []

-- What is pushed onto `dest`.
unfoldable pub encode_uri_component : Bytes → Bytes
unfolding encode_byte
encode_uri_component [] = []
encode_uri_component (c ∷ s) = encode_byte c ++ encode_uri_component s

-- The value of an upper-case hexadecimal digit.
unfoldable pub digit : ℕ → ℕ
digit h = if ltb h b'A' then h - b'0' else (h - b'A') + 10

-- Percent-decoding: `%` and two digits are one byte.
unfoldable pub decode_uri_component : Bytes → Bytes
unfolding digit
decode_uri_component [] = []
decode_uri_component (c ∷ []) = c ∷ []
decode_uri_component (c ∷ d ∷ []) = c ∷ decode_uri_component (d ∷ [])
decode_uri_component (c ∷ h ∷ l ∷ s) =
    let plain = decode_uri_component (h ∷ l ∷ s) in
    let decoded = decode_uri_component s in
    if c == b'%' then (digit h * 16 + digit l) ∷ decoded else c ∷ plain

-- The bytes of a text are bytes.
abbrev pub AreBytes : Bytes → Type 0
AreBytes [] = Unit {0}
AreBytes (c ∷ s) = (c < 256) × AreBytes s

digit-hex : (d : ℕ) → d < 16 → digit (hex d) ≡ d
unfolding digit hex
digit-hex d small = ground arith

decode-plain :
    (c : ℕ) (s : Bytes)
    → is_unreserved c ≡ true
    → decode_uri_component (c ∷ s) ≡ c ∷ decode_uri_component s
unfolding decode_uri_component is_unreserved
decode-plain c [] plain = refl
decode-plain c (d ∷ []) plain = refl
decode-plain c (h ∷ l ∷ s) plain = ground arith

decode-hex :
    (c : ℕ) (s : Bytes)
    → c < 256
    → decode_uri_component (b'%' ∷ hex (c / 16) ∷ hex (c % 16) ∷ s) ≡ c ∷ decode_uri_component s
unfolding decode_uri_component
decode-hex c s small =
    let high = digit-hex (c / 16) (omega arith) in
    let low = digit-hex (c % 16) (omega arith) in
    ap (λ d. d ∷ decode_uri_component s)
      (ap (λ d. d * 16 + digit (hex (c % 16))) high ∙ ap (λ d. c / 16 * 16 + d) low ∙ omega arith)

encode_byte-plain : (c : ℕ) → is_unreserved c ≡ true → encode_byte c ≡ c ∷ []
unfolding encode_byte
encode_byte-plain c plain = if-true _ _ plain

encode_byte-special :
    (c : ℕ) → is_unreserved c ≡ false → encode_byte c ≡ b'%' ∷ hex (c / 16) ∷ hex (c % 16) ∷ []
unfolding encode_byte
encode_byte-special c special = if-false _ _ special

-- Every text is read back from its encoding.
pub decode-encode_uri_component :
    (s : Bytes) → AreBytes s → decode_uri_component (encode_uri_component s) ≡ s
unfolding encode_uri_component
decode-encode_uri_component [] bytes = unfold decode_uri_component in refl
decode-encode_uri_component (c ∷ s) (small, bytes) = elim (Bool-cases (is_unreserved c)) [
  | inl plain ↦
      ap (λ e. decode_uri_component (e ++ encode_uri_component s)) (encode_byte-plain c plain)
      ∙ decode-plain c (encode_uri_component s) plain
      ∙ ap (c ∷◌) (decode-encode_uri_component s bytes)
  | inr special ↦
      ap (λ e. decode_uri_component (e ++ encode_uri_component s)) (encode_byte-special c special)
      ∙ decode-hex c (encode_uri_component s) small
      ∙ ap (c ∷◌) (decode-encode_uri_component s bytes)
]

-- The bytes that separate parameters, and a name from its value.
abbrev pub Separates : ℕ → Type 0
Separates b = (b ≡ b'&') ⊎ (b ≡ b'=')

hex-unreserved : (b d : ℕ) → Separates b → hex d ≡ b → d < 16 → ⊥
unfolding hex
hex-unreserved b d sep e small = ground arith

unreserved-Separates : (b c : ℕ) → Separates b → is_unreserved c ≡ true → c ≡ b → ⊥
unfolding is_unreserved
unreserved-Separates b c sep plain e = ground arith

-- An encoded text holds no separator.
pub encode_uri_component-Lacks :
    (b : ℕ) (s : Bytes) → Separates b → AreBytes s → Lacks b (encode_uri_component s)
unfolding encode_uri_component
encode_uri_component-Lacks b [] sep bytes = tt
encode_uri_component-Lacks b (c ∷ s) sep (small, bytes) = elim (Bool-cases (is_unreserved c)) [
  | inl plain ↦
      subst (λ e. Lacks b (e ++ encode_uri_component s)) (sym (encode_byte-plain c plain))
        (unreserved-Separates b c sep plain, encode_uri_component-Lacks b s sep bytes)
  | inr special ↦
      subst (λ e. Lacks b (e ++ encode_uri_component s)) (sym (encode_byte-special c special))
        (
          (λ e. omega arith),
          (
            (λ e. hex-unreserved b (c / 16) sep e (omega arith)),
            (
              (λ e. hex-unreserved b (c % 16) sep e (omega arith)),
              encode_uri_component-Lacks b s sep bytes,
            ),
          ),
        )
]
