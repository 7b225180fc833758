-- ===== src/Query/Order.antt =====
-- The order of the pairs in a canonical query of src/utils.rs.
use my_s.Base.{
  ℕ, ◌+◌, ◌≡◌, refl, sym, ◌∙◌, inl, inr, Bool, true, false, List, [], ◌∷◌, Bytes, bytes_eq,
  if◌then◌else◌, if-true, if-false, Bool-cases, subst, arith,
}
use my_s.Query.Canonical.{Pair, bytes_le, pair_le, insert, sort_unstable}

bytes_le-total : (s t : Bytes) → bytes_le s t ≡ false → bytes_le t s ≡ true
unfolding bytes_le
bytes_le-total [] t h = ground arith
bytes_le-total (x ∷ s) [] h = refl
bytes_le-total (x ∷ s) (y ∷ t) h = ground (arith, bytes_le-total s t)

bytes_eq-swap : (s t : Bytes) → bytes_eq s t ≡ bytes_eq t s
unfolding bytes_eq
bytes_eq-swap [] [] = refl
bytes_eq-swap [] (y ∷ t) = refl
bytes_eq-swap (x ∷ s) [] = refl
bytes_eq-swap (x ∷ s) (y ∷ t) = ground (arith, bytes_eq-swap s t)

pair_le-total : (p q : Pair) → pair_le p q ≡ false → pair_le q p ≡ true
unfolding pair_le
pair_le-total (n1, v1) (n2, v2) h =
    ground (arith, bytes_le-total v1 v2, bytes_le-total n1 n2, bytes_eq-swap n1 n2)

-- Each pair is at most the next one.
abbrev pub Sorted : List Pair → Type 0
Sorted [] = Unit {0}
Sorted (p ∷ []) = Unit {0}
Sorted (p ∷ q ∷ qs) = (pair_le p q ≡ true) × Sorted (q ∷ qs)

pair_eq : Pair → Pair → Bool
unfolding bytes_eq
pair_eq (n1, v1) (n2, v2) = if bytes_eq n1 n2 then bytes_eq v1 v2 else false

-- How often a pair occurs.
unfoldable pub occurrences : Pair → List Pair → ℕ
unfolding pair_eq
occurrences p [] = 0
occurrences p (q ∷ qs) = let rest = occurrences p qs in if pair_eq p q then 1 + rest else rest

insert-Sorted : (p : Pair) (qs : List Pair) → Sorted qs → Sorted (insert p qs)
unfolding insert
insert-Sorted p [] sorted = tt
insert-Sorted p (q ∷ []) sorted = elim (Bool-cases (pair_le p q)) [
  | inl e ↦ subst Sorted (sym (if-true _ _ e)) (e, tt)
  | inr e ↦ subst Sorted (sym (if-false _ _ e)) (pair_le-total p q e, tt)
]
insert-Sorted p (q ∷ r ∷ qs) (le, sorted) = elim (Bool-cases (pair_le p q)) [
  | inl e ↦ subst Sorted (sym (if-true _ _ e)) (e, (le, sorted))
  | inr e ↦ subst Sorted (sym (if-false _ _ e)) (elim (Bool-cases (pair_le p r)) [
    | inl before ↦
        subst (λ l. Sorted (q ∷ l)) (sym (if-true _ _ before))
          (pair_le-total p q e, (before, sorted))
    | inr behind ↦
        subst (λ l. Sorted (q ∷ l)) (sym (if-false _ _ behind))
          (le, subst Sorted (if-false _ _ behind) (insert-Sorted p (r ∷ qs) sorted))
  ])
]

occurrences-insert :
    (p q : Pair) (qs : List Pair) → occurrences p (insert q qs) ≡ occurrences p (q ∷ qs)
unfolding insert occurrences
occurrences-insert p q [] = refl
occurrences-insert p q (r ∷ qs) = ground (arith, occurrences-insert p q qs)

pub sort_unstable-Sorted : (ps : List Pair) → Sorted (sort_unstable ps)
unfolding sort_unstable
sort_unstable-Sorted [] = tt
sort_unstable-Sorted (p ∷ ps) = insert-Sorted p (sort_unstable ps) (sort_unstable-Sorted ps)

occurrences-cons :
    (p q : Pair) (ps qs : List Pair)
    → occurrences p ps ≡ occurrences p qs
    → occurrences p (q ∷ ps) ≡ occurrences p (q ∷ qs)
unfolding occurrences
occurrences-cons p q ps qs e = ground (arith, e)

pub occurrences-sort_unstable :
    (p : Pair) (ps : List Pair) → occurrences p (sort_unstable ps) ≡ occurrences p ps
unfolding sort_unstable
occurrences-sort_unstable p [] = refl
occurrences-sort_unstable p (q ∷ ps) =
    occurrences-insert p q (sort_unstable ps)
    ∙ occurrences-cons p q (sort_unstable ps) ps (occurrences-sort_unstable p ps)
