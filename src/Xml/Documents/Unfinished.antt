-- ===== src/Xml/Documents/Unfinished.antt =====
-- Where a document of src/xml.rs that was cut short ends: within a tag, or in front of it.
use my_s.Base.{
  ℕ, zero, suc, ◌-◌, ◌+◌, ◌<◌, ◌≤◌, ◌≡◌, ◌⊎◌, inl, inr, refl, sym, ap, ◌∙◌, false, [], ◌∷◌, ◌++◌,
  append_assoc, some, Bytes, length, length-append, ◌==◌, split_at-append, split_at-Lacks, Lacks,
  arith,
}
use my_s.Xml.Safe.{Tag, tag_of, after_tag, tag_end, next_tag, scan_tags}
use my_s.Xml.Documents.{tag, scan_tags-tag}

-- A part of `a ++ b` reaches past `a`, or ends within it.
pub append-split :
    (p q a b : Bytes)
    → p ++ q ≡ a ++ b
    → ((p' : Bytes) × (p ≡ a ++ p') × (p' ++ q ≡ b))
      ⊎ ((c : ℕ) × (more : Bytes) × (a ≡ p ++ c ∷ more))
append-split [] q [] b e = inl ([], refl, e)
append-split [] q (c ∷ a) b e = inr (c, a, refl)
append-split (x ∷ p) q [] b e = inl (x ∷ p, refl, e)
append-split (x ∷ p) q (y ∷ a) b e =
    let head : x ≡ y = cc in
    let rest : p ++ q ≡ a ++ b = cc in
    elim (append-split p q a b rest) [
      | inl (p', f, h) ↦ inl (p', (λ i. head i ∷ f i), h)
      | inr (c, more, f) ↦ inr (c, more, (λ i. sym head i ∷ f i))
    ]

-- A part of a text without `b`, followed by one byte more, has no `b`.
Lacks-part :
    (b : ℕ) (p : Bytes) (c : ℕ) (more inner : Bytes) (last : ℕ)
    → inner ++ last ∷ [] ≡ p ++ c ∷ more
    → Lacks b inner
    → Lacks b p
Lacks-part b [] c more inner last e h = tt
Lacks-part b (x ∷ p) c more [] last e h = absurd (short p cc)
  where
    short : (p : Bytes) → [] ≡ p ++ c ∷ more → ⊥
    short [] e = cc
    short (y ∷ p) e = cc
Lacks-part b (x ∷ p) c more (y ∷ inner) last e (ne, h) =
    let head : x ≡ y = cc in
    let rest : inner ++ last ∷ [] ≡ p ++ c ∷ more = cc in
    ((λ f. ne (sym head ∙ f)), Lacks-part b p c more inner last rest h)

-- At a positive depth nothing but an end is left to find.
pub scan_tags-end : (g depth : ℕ) → 0 < g → 0 < depth → scan_tags g depth [] ≡ some false
unfolding scan_tags next_tag
scan_tags-end zero depth pos deep = absurd (omega arith)
scan_tags-end (suc f) depth pos deep = ap some not_zero
  where
    not_zero : (depth == 0) ≡ false
    not_zero = ground arith

scan_tags-half_tag :
    (g depth : ℕ) (p : Bytes) → 0 < g → Lacks b'>' p → scan_tags g depth (b'<' ∷ p) ≡ some false
unfolding scan_tags next_tag tag_end
scan_tags-half_tag zero depth p pos h = absurd (omega arith)
scan_tags-half_tag (suc f) depth p pos h =
    ap (next_tag (scan_tags f) depth) (split_at-append b'<' [] p tt)
    ∙ ap (tag_end (scan_tags f) depth) (split_at-Lacks b'>' p h)

pub scan_tags-started :
    (g depth x : ℕ) (p inner : Bytes) (c : ℕ) (more : Bytes)
    → 0 < g
    → Lacks b'>' inner
    → tag inner [] ≡ (x ∷ p) ++ c ∷ more
    → scan_tags g depth (x ∷ p) ≡ some false
scan_tags-started g depth x p inner c more pos h e =
    let head : x ≡ b'<' = cc in
    let rest : inner ++ b'>' ∷ [] ≡ p ++ c ∷ more = cc in
    ap (λ y. scan_tags g depth (y ∷ p)) head
    ∙ scan_tags-half_tag g depth p pos (Lacks-part b'>' p c more inner b'>' rest h)

-- A document that ends within a tag, or in front of it.
pub scan_tags-within :
    (g depth : ℕ) (p inner : Bytes) (c : ℕ) (more : Bytes)
    → 0 < g
    → 0 < depth
    → Lacks b'>' inner
    → tag inner [] ≡ p ++ c ∷ more
    → scan_tags g depth p ≡ some false
scan_tags-within g depth [] inner c more pos deep h e = scan_tags-end g depth pos deep
scan_tags-within g depth (x ∷ p) inner c more pos deep h e =
    scan_tags-started g depth x p inner c more pos h e

pub tag-nil : (inner rest : Bytes) → tag inner [] ++ rest ≡ tag inner rest
tag-nil inner rest = ap (◌∷◌ b'<') (append_assoc inner (b'>' ∷ []) rest)

pub length-tag : (inner rest : Bytes) → length rest + 2 ≤ length (tag inner rest)
length-tag inner rest = omega (arith, length-append inner (b'>' ∷ rest))

pub Lacks-append_left : (b : ℕ) (p q : Bytes) → Lacks b (p ++ q) → Lacks b p
Lacks-append_left b [] q h = tt
Lacks-append_left b (x ∷ p) q (ne, h) = (ne, Lacks-append_left b p q h)

-- A document that ends within a tag is refused; past it, the rest decides.
pub past_tag :
    (g depth : ℕ) (p q inner rest : Bytes) (kind : Tag)
    → Lacks b'>' inner
    → tag_of inner ≡ kind
    → length p < g
    → 0 < depth
    → p ++ q ≡ tag inner rest
    → ((p' : Bytes)
        → p' ++ q ≡ rest
        → length p' + 1 < g
        → after_tag (scan_tags (g - 1)) depth kind p' ≡ some false)
    → scan_tags g depth p ≡ some false
past_tag g depth p q inner rest kind lacks is_kind fuel deep e later =
    elim (append-split p q (tag inner []) rest (e ∙ sym (tag-nil inner rest))) [
      | inl (p', f, h) ↦
          let whole : p ≡ tag inner p' = f ∙ tag-nil inner p' in
          ap (scan_tags g depth) whole
          ∙ scan_tags-tag g (g - 1) depth inner p' (omega arith) lacks is_kind
          ∙ later p' h (omega (arith, ap length whole, length-tag inner p'))
      | inr (c, more, f) ↦ scan_tags-within g depth p inner c more (omega arith) deep lacks f
    ]
