-- ===== src/Xml/Safe/Total.antt =====
-- The scan of `is_safe_to_read` of src/xml.rs comes to an end.
use my_s.Base.{
  ℕ, zero, suc, ◌-◌, ◌+◌, ◌<◌, ◌≡◌, refl, Bool, false, ◌∷◌, Option, none, some, Bytes, length,
  length-append, ap, ◌==◌, split_at, split_at-some, Option-cases, Bool-cases, if-true, if-false,
  ◌∙◌, inl, inr, arith,
}
use my_s.Xml.Safe.{Tag, tag_of, after_tag, tag_end, next_tag, scan_tags, balanced}

after_tag-total :
    (k : ℕ → Bytes → Option Bool) (depth : ℕ) (t : Tag) (rest : Bytes)
    → ((d : ℕ) → (b : Bool) × (k d rest ≡ some b))
    → (b : Bool) × (after_tag k depth t rest ≡ some b)
unfolding after_tag
after_tag-total k depth Tag.neither rest total = total depth
after_tag-total k depth Tag.opens rest total = total (depth + 1)
after_tag-total k depth Tag.both rest total = total depth
after_tag-total k depth Tag.closes rest total = elim (Bool-cases (depth == 0)) [
  | inl e ↦ (false, if-true _ _ e)
  | inr e ↦ let (b, answer) = total (depth - 1) in (b, if-false _ _ e ∙ answer)
]

next_tag-some :
    (k : ℕ → Bytes → Option Bool) (depth : ℕ) (text tail inner rest : Bytes)
    → split_at b'>' tail ≡ some (inner, rest)
    → next_tag k depth (some (text, tail)) ≡ after_tag k depth (tag_of inner) rest
unfolding next_tag tag_end
next_tag-some k depth text tail inner rest e = ap (tag_end k depth) e

next_tag-none :
    (k : ℕ → Bytes → Option Bool) (depth : ℕ) (text tail : Bytes)
    → split_at b'>' tail ≡ none
    → next_tag k depth (some (text, tail)) ≡ some false
unfolding next_tag tag_end
next_tag-none k depth text tail e = ap (tag_end k depth) e

scan_tags-total :
    (f depth : ℕ) (body : Bytes) → length body < f → (b : Bool) × (scan_tags f depth body ≡ some b)
unfolding scan_tags
scan_tags-total zero depth body fuel = absurd (omega arith)
scan_tags-total (suc f) depth body fuel = elim (Option-cases (split_at b'<' body)) [
  | inl e ↦ (depth == 0, ap (next_tag (scan_tags f) depth) e ∙ unfold next_tag in refl)
  | inr ((text, tail), e) ↦ elim (Option-cases (split_at b'>' tail)) [
    | inl unended ↦ (
      false,
      ap (next_tag (scan_tags f) depth) e ∙ next_tag-none (scan_tags f) depth text tail unended,
    )
    | inr ((inner, rest), closed) ↦
        let (spelled, _) = split_at-some b'<' body text tail e in
        let (spelled', _) = split_at-some b'>' tail inner rest closed in
        let (b, answer) = after_tag-total (scan_tags f) depth (tag_of inner) rest (λ d.
          scan_tags-total f d rest (
            omega (
              arith,
              ap length spelled,
              ap length spelled',
              length-append text (b'<' ∷ tail),
              length-append inner (b'>' ∷ rest),
            ))) in
        (
          b,
          ap (next_tag (scan_tags f) depth) e
              ∙ next_tag-some (scan_tags f) depth text tail inner rest closed
              ∙ answer,
        )
  ]
]

-- The scan comes to an end on every body.
pub balanced-total : (body : Bytes) → (b : Bool) × (balanced body ≡ some b)
unfolding balanced
balanced-total body = scan_tags-total (suc (length body)) 0 body (omega arith)
