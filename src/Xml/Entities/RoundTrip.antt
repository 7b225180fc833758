-- ===== src/Xml/Entities/RoundTrip.antt =====
-- What `unescape` of src/xml.rs reads back.
use my_s.Base.{
  ℕ, zero, suc, ◌<◌, ◌≤◌, ◌≡◌, ◌⊎◌, refl, sym, ap, subst, ==_iff, ◌∙◌, false, [], ◌∷◌, ◌++◌,
  append_assoc, append-nil, Option, none, some, Bytes, length, length-append, ◌==◌, if-false,
  split_at, split_at-cons, put_in_front, split_at-Lacks, Lacks, Bool-cases, Option-cases, inl, inr,
  arith,
}
use my_s.Xml.Entities.{
  ampersand, entities, matched, decode_at, unescape_round, unescape_loop, unescape_within, or_empty,
  unescape, escape_byte, escape,
}

-- A byte that is no `&` is copied.
unescape_round-put_in_front :
    (k : Bytes → Bytes → Option Bytes) (c : ℕ) (rest result : Bytes)
    (found : Option (Bytes × Bytes))
    → unescape_round k (c ∷ rest) result (put_in_front c found)
      ≡ unescape_round k rest (result ++ c ∷ []) found
unfolding unescape_round put_in_front
unescape_round-put_in_front k c rest result none = ap some (sym (append_assoc result (c ∷ []) rest))
unescape_round-put_in_front k c rest result (some (before, after)) =
    ap
      (λ r.
        k (decode_at (ampersand ∷ after) (matched entities (ampersand ∷ after))).1
          (r ++ (decode_at (ampersand ∷ after) (matched entities (ampersand ∷ after))).0 ∷ []))
      (sym (append_assoc result (c ∷ []) before))

unescape_loop-copy :
    (f c : ℕ) (rest result : Bytes)
    → (c ≡ ampersand → ⊥)
    → unescape_loop (suc f) (c ∷ rest) result ≡ unescape_loop (suc f) rest (result ++ c ∷ [])
unfolding unescape_loop
unescape_loop-copy f c rest result ne =
    ap (unescape_round (unescape_loop f) (c ∷ rest) result) (split_at-cons ampersand c rest ne)
    ∙ unescape_round-put_in_front (unescape_loop f) c rest result (split_at ampersand rest)

abbrev Reads : ℕ → Type 0
Reads c =
    (f : ℕ) (rest result : Bytes)
    → unescape_loop (suc f) (escape_byte c ++ rest) result ≡ unescape_loop f rest (result ++ c ∷ [])

amp-Reads : Reads b'&'
unfolding unescape_loop escape_byte
amp-Reads f rest result = rw (append-nil result)

lt-Reads : Reads b'<'
unfolding unescape_loop escape_byte
lt-Reads f rest result = rw (append-nil result)

gt-Reads : Reads b'>'
unfolding unescape_loop escape_byte
gt-Reads f rest result = rw (append-nil result)

quot-Reads : Reads b'"'
unfolding unescape_loop escape_byte
quot-Reads f rest result = rw (append-nil result)

apos-Reads : Reads b'\''
unfolding unescape_loop escape_byte
apos-Reads f rest result = rw (append-nil result)

-- A byte is written as itself, and is no `&`; or as an entity, which one round reads back.
escape_byte-cases : (c : ℕ) → ((escape_byte c ≡ c ∷ []) × (c ≡ ampersand → ⊥)) ⊎ Reads c
escape_byte-cases c = elim (Bool-cases (c == b'&')) [
  | inl e ↦ inr (subst Reads (sym ((==_iff c _).0 e)) amp-Reads)
  | inr not_amp ↦ elim (Bool-cases (c == b'<')) [
    | inl e ↦ inr (subst Reads (sym ((==_iff c _).0 e)) lt-Reads)
    | inr not_lt ↦ elim (Bool-cases (c == b'>')) [
      | inl e ↦ inr (subst Reads (sym ((==_iff c _).0 e)) gt-Reads)
      | inr not_gt ↦ elim (Bool-cases (c == b'"')) [
        | inl e ↦ inr (subst Reads (sym ((==_iff c _).0 e)) quot-Reads)
        | inr not_quot ↦ elim (Bool-cases (c == b'\'')) [
          | inl e ↦ inr (subst Reads (sym ((==_iff c _).0 e)) apos-Reads)
          | inr not_apos ↦ inl (plain not_amp not_lt not_gt not_quot not_apos, (λ e. ground arith))
        ]
      ]
    ]
  ]
]
  where
    plain :
        (c == b'&') ≡ false
        → (c == b'<') ≡ false
        → (c == b'>') ≡ false
        → (c == b'"') ≡ false
        → (c == b'\'') ≡ false
        → escape_byte c ≡ c ∷ []
    plain a b d e f =
        unfold escape_byte in
        (rw (if-false _ _ a, if-false _ _ b, if-false _ _ d, if-false _ _ e, if-false _ _ f))

unescape_loop-escape :
    (s : Bytes) (f : ℕ) (result : Bytes)
    → length s < f
    → unescape_loop f (escape s) result ≡ some (result ++ s)
unfolding escape
unescape_loop-escape s zero result fuel = absurd (omega arith)
unescape_loop-escape [] (suc f) result fuel = unfold unescape_loop in refl
unescape_loop-escape (c ∷ s) (suc f) result fuel = elim (escape_byte-cases c) [
  | inl (plain, ne) ↦
      ap (λ e. unescape_loop (suc f) (e ++ escape s) result) plain
      ∙ unescape_loop-copy f c (escape s) result ne
      ∙ unescape_loop-escape s (suc f) (result ++ c ∷ []) (omega arith)
      ∙ ap some (append_assoc result (c ∷ []) s)
  | inr reads ↦
      reads f (escape s) result
      ∙ unescape_loop-escape s f (result ++ c ∷ []) (omega arith)
      ∙ ap some (append_assoc result (c ∷ []) s)
]

escape_byte-pos : (c : ℕ) → 0 < length (escape_byte c)
unfolding escape_byte
escape_byte-pos c = ground arith

length-escape : (s : Bytes) → length s ≤ length (escape s)
unfolding escape
length-escape [] = omega arith
length-escape (c ∷ s) =
    omega (arith, escape_byte-pos c, length-escape s, length-append (escape_byte c) (escape s))

unescape_within-escape : (s : Bytes) → unescape_within (escape s) ≡ some s
unfolding unescape_within
unescape_within-escape s =
    unescape_loop-escape s (suc (length (escape s))) [] (omega (arith, length-escape s))

-- Without an `&` the loop copies the text.
unescape_within-plain :
    (text : Bytes) → split_at ampersand text ≡ none → unescape_within text ≡ some text
unfolding unescape_within unescape_loop unescape_round
unescape_within-plain text e = rw (e, unescape_round)

unescape-plain : (src : Bytes) → split_at ampersand src ≡ none → unescape src ≡ src
unfolding unescape
unescape-plain src e =
    ap (λ found. elim found [ none ↦ src | some _ ↦ or_empty (unescape_within src) ]) e

unescape-split :
    (src : Bytes) {found : Bytes × Bytes}
    → split_at ampersand src ≡ some found
    → unescape src ≡ or_empty (unescape_within src)
unfolding unescape
unescape-split src e =
    ap (λ found. elim found [ none ↦ src | some _ ↦ or_empty (unescape_within src) ]) e

-- The early return changes nothing.
unescape-within : (src : Bytes) → unescape src ≡ or_empty (unescape_within src)
unescape-within src = elim (Option-cases (split_at ampersand src)) [
  | inl e ↦
      unescape-plain src e
      ∙ sym (ap or_empty (unescape_within-plain src e) ∙ unfold or_empty in refl)
  | inr (found, e) ↦ unescape-split src e
]

-- Text without an `&` is read as it stands.
pub unescape-Lacks : (s : Bytes) → Lacks ampersand s → unescape s ≡ s
unescape-Lacks s lacks = unescape-plain s (split_at-Lacks ampersand s lacks)

-- Text that is written as XML, each of the five special bytes as its entity, is read back as it was.
pub unescape-escape : (s : Bytes) → unescape (escape s) ≡ s
unfolding or_empty
unescape-escape s = unescape-within (escape s) ∙ ap or_empty (unescape_within-escape s)
