-- ===== src/Query/Parts.antt =====
-- Every query of src/utils.rs is written as its parts.
use my_s.Base.{
  ℕ, ◌≡◌, ◌≢◌, refl, ap, ◌∙◌, List, [], ◌∷◌, ◌++◌, Bytes, ◌==◌, Bool-cases, inl, inr, arith,
}
use my_s.Query.Params.{Lacks-append}
use my_s.Query.Readback.{Part, blank, flag, valued, IsPart, AllParts, spelled, written}

-- The parts of `query`, of which there is at least one.
abbrev Spelled : Bytes → Type 0
Spelled query =
    (part : Part) × (parts : List Part) × (AllParts (part ∷ parts))
    × (written (part ∷ parts) ≡ query)

written-cons :
    (c : ℕ) (part next : Part) (parts : List Part)
    → spelled next ≡ c ∷ spelled part
    → written (next ∷ parts) ≡ c ∷ written (part ∷ parts)
written-cons c part next [] e = e
written-cons c part next (other ∷ parts) e = ap (λ s. s ++ b'&' ∷ written (other ∷ parts)) e

-- One byte more in front, which is no `&`.
grown :
    (c : ℕ) (part : Part)
    → c ≢ b'&'
    → IsPart part
    → (next : Part) × IsPart next × (spelled next ≡ c ∷ spelled part)
grown c blank ne is_part = elim (Bool-cases (c == b'=')) [
  | inl e ↦ (valued [] [], (tt, tt, tt), ap (λ b. b ∷ []) (ground arith))
  | inr e ↦ (flag (c ∷ []), ((λ e. cc), ((λ same. ground arith), tt), (ne, tt)), refl)
]
grown c (flag name) ne (some_bytes, plain, whole) = elim (Bool-cases (c == b'=')) [
  | inl e ↦ (valued [] name, (tt, tt, whole), ap (λ b. b ∷ name) (ground arith))
  | inr e ↦ (flag (c ∷ name), ((λ e. cc), ((λ same. ground arith), plain), (ne, whole)), refl)
]
grown c (valued name value) ne (plain, before, behind) = elim (Bool-cases (c == b'=')) [
  | inl e ↦ (
    valued [] (name ++ b'=' ∷ value),
    (tt, tt, Lacks-append b'&' name (b'=' ∷ value) before ((λ e. omega arith), behind)),
    ap (λ b. b ∷ (name ++ b'=' ∷ value)) (ground arith),
  )
  | inr e ↦ (valued (c ∷ name) value, (((λ same. ground arith), plain), (ne, before), behind), refl)
]

-- A query is a list of parts, so that what holds of the parts that are written holds of every query.
query-Spelled : (query : Bytes) → Spelled query
query-Spelled [] = (blank, [], (tt, tt), refl)
query-Spelled (c ∷ query) = elim (Bool-cases (c == b'&')) [
  | inl e ↦
      let (part, parts, all, same) = query-Spelled query in
      (
        blank,
        part ∷ parts,
        (tt, all),
        ap (λ b. b ∷ written (part ∷ parts)) (ground arith) ∙ ap (c ∷◌) same,
      )
  | inr e ↦
      let (part, parts, (is_part, all), same) = query-Spelled query in
      let (next, is_next, begins) = grown c part (λ h. ground arith) is_part in
      (next, parts, (is_next, all), written-cons c part next parts begins ∙ ap (c ∷◌) same)
]
