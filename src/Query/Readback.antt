-- ===== src/Query/Readback.antt =====
-- `canonical_query_string` of src/utils.rs against what the parameters of a query mean.
use my_s.Base.{
  ◌≡◌, ◌≢◌, ◌<◌, refl, ap, sym, ◌∙◌, ◌⊎◌, inl, inr, Bool-cases, List, [], ◌∷◌, ◌++◌, append-nil,
  some, Bytes, true, false, bytes_eq, bytes_eq_iff, if-false, if-true, ltb, ltb→lt, ◌==◌, Lacks,
  split_at-Lacks, arith,
}
use my_s.Query.Canonical.{
  Pair, split, pair_of, pairs_of, pairs, bytes_le, pair_le, sort_unstable, write_pair, write_rest,
  write_pairs, canonical_query_string,
}
use my_s.Query.Params.{split-append, split-Lacks, pairs_of-append, pairs_of-part, Lacks-append}
use my_s.Query.Order.{Sorted, sort_unstable-Sorted, occurrences, occurrences-sort_unstable}

-- What stands between the `&` of a query: nothing, a name alone, or a name and its value.
pub data Part : Type 0 where
  blank : Part
  flag : Bytes → Part
  valued : Bytes → Bytes → Part

abbrev pub IsPart : Part → Type 0
IsPart blank = Unit {0}
IsPart (flag name) = (name ≢ []) × Lacks b'=' name × Lacks b'&' name
IsPart (valued name value) = Lacks b'=' name × Lacks b'&' name × Lacks b'&' value

abbrev pub AllParts : List Part → Type 0
AllParts [] = Unit {0}
AllParts (part ∷ parts) = IsPart part × AllParts parts

abbrev pub spelled : Part → Bytes
spelled blank = []
spelled (flag name) = name
spelled (valued name value) = name ++ b'=' ∷ value

-- The query.
abbrev pub written : List Part → Bytes
written [] = []
written (part ∷ []) = spelled part
written (part ∷ next ∷ parts) = spelled part ++ b'&' ∷ written (next ∷ parts)

-- The parameters: a name alone has the empty value.
abbrev pub meant : List Part → List Pair
meant [] = []
meant (blank ∷ parts) = meant parts
meant (flag name ∷ parts) = (name, []) ∷ meant parts
meant (valued name value ∷ parts) = (name, value) ∷ meant parts

-- The form that is signed: `name=value`, with `&` between them.
abbrev pub listed : List Pair → Bytes
listed [] = []
listed ((name, value) ∷ []) = name ++ b'=' ∷ value
listed ((name, value) ∷ q ∷ qs) = (name ++ b'=' ∷ value) ++ b'&' ∷ listed (q ∷ qs)

-- The order of the bytes, a text before what continues it.
abbrev pub AtMost : Bytes → Bytes → Type 0
AtMost [] t = Unit {0}
AtMost (x ∷ s) [] = ⊥
AtMost (x ∷ s) (y ∷ t) = (x < y) ⊎ ((x ≡ y) × AtMost s t)

-- By name, and by value where the names are the same.
abbrev pub InOrder : List Pair → Type 0
InOrder [] = Unit {0}
InOrder (p ∷ []) = Unit {0}
InOrder ((name1, value1) ∷ (name2, value2) ∷ qs) =
    (((name1 ≢ name2) × AtMost name1 name2) ⊎ ((name1 ≡ name2) × AtMost value1 value2))
    × InOrder ((name2, value2) ∷ qs)

bytes_le-AtMost : (s t : Bytes) → bytes_le s t ≡ true → AtMost s t
unfolding bytes_le
bytes_le-AtMost [] t h = tt
bytes_le-AtMost (x ∷ s) [] h = absurd cc
bytes_le-AtMost (x ∷ s) (y ∷ t) h = elim (Bool-cases (ltb x y)) [
  | inl less ↦ inl (ltb→lt x y less)
  | inr other ↦ elim (Bool-cases (x == y)) [
    | inl same ↦ inr (ground arith, bytes_le-AtMost s t (ground (arith, h)))
    | inr further ↦ ground (arith, h)
  ]
]

Sorted-InOrder : (qs : List Pair) → Sorted qs → InOrder qs
unfolding pair_le
Sorted-InOrder [] sorted = tt
Sorted-InOrder (p ∷ []) sorted = tt
Sorted-InOrder ((name1, value1) ∷ (name2, value2) ∷ qs) (le, sorted) =
    (pairwise, Sorted-InOrder ((name2, value2) ∷ qs) sorted)
  where
    pairwise : ((name1 ≢ name2) × AtMost name1 name2) ⊎ ((name1 ≡ name2) × AtMost value1 value2)
    pairwise = elim (Bool-cases (bytes_eq name1 name2)) [
      | inl same ↦ inr (
        (bytes_eq_iff name1 name2).0 same,
        bytes_le-AtMost value1 value2 (sym (if-true _ _ same) ∙ le),
      )
      | inr other ↦ inl (
        (λ e. differ (sym other ∙ (bytes_eq_iff name1 name2).1 e)),
        bytes_le-AtMost name1 name2 (sym (if-false _ _ other) ∙ le),
      )
    ]
      where
        differ : false ≡ true → ⊥
        differ e = cc

pairs-append : (s t : Bytes) → pairs (s ++ b'&' ∷ t) ≡ pairs s ++ pairs t
unfolding pairs
pairs-append s t =
    ap pairs_of (split-append b'&' s t) ∙ pairs_of-append (split b'&' s) (split b'&' t)

pairs-spelled : (part : Part) → IsPart part → pairs (spelled part) ≡ meant (part ∷ [])
unfolding pairs
pairs-spelled blank h = unfold pairs_of split in refl
pairs-spelled (flag []) (some_bytes, plain, whole) = absurd (some_bytes refl)
pairs-spelled (flag (c ∷ name)) (some_bytes, plain, whole) =
    ap pairs_of (split-Lacks b'&' (c ∷ name) whole)
    ∙ unfold pairs_of pair_of in
      ap (λ found. pair_of (c ∷ name) found ∷ []) (split_at-Lacks b'=' (c ∷ name) plain)
pairs-spelled (valued name value) (plain, before, behind) =
    ap pairs_of (
      split-Lacks b'&' (name ++ b'=' ∷ value)
        (Lacks-append b'&' name (b'=' ∷ value) before ((λ e. omega arith), behind)))
    ∙ pairs_of-part name value plain

meant-cons :
    (part : Part) (parts : List Part) → meant (part ∷ []) ++ meant parts ≡ meant (part ∷ parts)
meant-cons blank parts = refl
meant-cons (flag name) parts = refl
meant-cons (valued name value) parts = refl

pairs-written : (parts : List Part) → AllParts parts → pairs (written parts) ≡ meant parts
pairs-written [] all = unfold pairs pairs_of split in refl
pairs-written (part ∷ []) (is_part, all) = pairs-spelled part is_part
pairs-written (part ∷ next ∷ parts) (is_part, all) =
    pairs-append (spelled part) (written (next ∷ parts))
    ∙ ap (◌++ pairs (written (next ∷ parts))) (pairs-spelled part is_part)
    ∙ ap (meant (part ∷ []) ++◌) (pairs-written (next ∷ parts) all)
    ∙ meant-cons part (next ∷ parts)

write_pairs-listed : (ps : List Pair) → write_pairs ps ≡ listed ps
unfolding write_pairs write_rest write_pair
write_pairs-listed [] = refl
write_pairs-listed ((name, value) ∷ []) = append-nil (name ++ b'=' ∷ value)
write_pairs-listed ((name, value) ∷ q ∷ ps) =
    ap (λ rest. (name ++ b'=' ∷ value) ++ b'&' ∷ rest) (write_pairs-listed (q ∷ ps))

canonical-pairs :
    (query : Bytes) → canonical_query_string (some query) ≡ listed (sort_unstable (pairs query))
unfolding canonical_query_string
canonical-pairs [] = unfold pairs pairs_of split sort_unstable in refl
canonical-pairs (c ∷ query) = write_pairs-listed (sort_unstable (pairs (c ∷ query)))

-- The canonical query lists exactly the parameters that the query means, ordered by name and then by
-- value, each as `name=value`: every parameter is in it as often as in the query, a name alone has the
-- empty value, and what is blank is dropped.
pub canonical_query_string-InOrder :
    (parts : List Part)
    → AllParts parts
    → (qs : List Pair) × (canonical_query_string (some (written parts)) ≡ listed qs)
      × InOrder qs
      × ((p : Pair) → occurrences p qs ≡ occurrences p (meant parts))
canonical_query_string-InOrder parts all = (
  sort_unstable (meant parts),
  canonical-pairs (written parts) ∙ ap (λ ps. listed (sort_unstable ps)) (pairs-written parts all),
  Sorted-InOrder (sort_unstable (meant parts)) (sort_unstable-Sorted (meant parts)),
  (λ p. occurrences-sort_unstable p (meant parts)),
)
