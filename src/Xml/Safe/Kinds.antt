-- ===== src/Xml/Safe/Kinds.antt =====
-- The kinds of tags of a document, told by how they are spelled, and what `is_safe_to_read` of
-- src/xml.rs takes them for.
use my_s.Base.{
  ℕ, ◌≡◌, ◌≢◌, ◌⊎◌, inl, inr, refl, ap, ◌∙◌, true, false, [], ◌∷◌, ◌++◌, Bytes, Bool-cases, arith,
}
use my_s.Xml.Safe.{Tag, tag_of, ends_in_slash}

abbrev pub EndsIn : ℕ → Bytes → Type 0
EndsIn last inner = (front : Bytes) × (inner ≡ front ++ last ∷ [])

-- What follows a `<` that opens an element.
abbrev pub IsName : Bytes → Type 0
IsName name = (c : ℕ) × (more : Bytes) × (name ≡ c ∷ more) × (c ≢ b'?') × (c ≢ b'!') × (c ≢ b'/')

-- What follows a `<` that opens no element: a declaration, a doctype or a comment.
abbrev pub IsDeclaration : Bytes → Type 0
IsDeclaration d = (c : ℕ) × (more : Bytes) × (d ≡ c ∷ more) × ((c ≡ b'?') ⊎ (c ≡ b'!'))

ends_in_slash-EndsIn : (s : Bytes) → ends_in_slash s ≡ true → EndsIn b'/' s
unfolding ends_in_slash
ends_in_slash-EndsIn [] e = absurd cc
ends_in_slash-EndsIn (c ∷ []) e = ([], ap (λ x. x ∷ []) (ground arith))
ends_in_slash-EndsIn (c ∷ d ∷ s) e =
    let (front, same) = ends_in_slash-EndsIn (d ∷ s) e in (c ∷ front, ap (c ∷◌) same)

ends_in_slash-snoc : (s : Bytes) → ends_in_slash (s ++ b'/' ∷ []) ≡ true
unfolding ends_in_slash
ends_in_slash-snoc [] = refl
ends_in_slash-snoc (c ∷ []) = refl
ends_in_slash-snoc (c ∷ d ∷ s) = ends_in_slash-snoc (d ∷ s)

pub EndsIn-slash : (s : Bytes) → EndsIn b'/' s → ends_in_slash s ≡ true
EndsIn-slash s (front, same) = ap ends_in_slash same ∙ ends_in_slash-snoc front

tag_of-name :
    (c : ℕ) (s : Bytes)
    → c ≢ b'?'
    → c ≢ b'!'
    → c ≢ b'/'
    → (ends_in_slash (c ∷ s) ≡ false → tag_of (c ∷ s) ≡ Tag.opens)
      × (ends_in_slash (c ∷ s) ≡ true → tag_of (c ∷ s) ≡ Tag.both)
unfolding tag_of
tag_of-name c s q e slash = ((λ h. ground (arith, h)), (λ h. ground (arith, h)))

pub tag_of-opens :
    (name attributes : Bytes)
    → IsName name
    → (EndsIn b'/' (name ++ attributes) → ⊥)
    → tag_of (name ++ attributes) ≡ Tag.opens
tag_of-opens name attributes (c, more, e, q, bang, slash) no_slash =
    ap tag_of whole ∙ (tag_of-name c (more ++ attributes) q bang slash).0 open_
  where
    whole : name ++ attributes ≡ c ∷ (more ++ attributes)
    whole = ap (λ n. n ++ attributes) e

    open_ : ends_in_slash (c ∷ (more ++ attributes)) ≡ false
    open_ = elim (Bool-cases (ends_in_slash (c ∷ (more ++ attributes)))) [
      | inr other ↦ other
      | inl slashed ↦
          let (front, same) = ends_in_slash-EndsIn (c ∷ (more ++ attributes)) slashed in
          absurd (no_slash (front, whole ∙ same))
    ]

pub tag_of-both : (name : Bytes) → IsName name → tag_of (name ++ b'/' ∷ []) ≡ Tag.both
tag_of-both name (c, more, e, q, bang, slash) =
    ap (λ n. tag_of (n ++ b'/' ∷ [])) e
    ∙ (tag_of-name c (more ++ b'/' ∷ []) q bang slash).1 (ends_in_slash-snoc (c ∷ more))

pub tag_of-neither : (d : Bytes) → IsDeclaration d → tag_of d ≡ Tag.neither
unfolding tag_of
tag_of-neither d (c, more, e, kind) = ap tag_of e ∙ ground (arith, kind)
