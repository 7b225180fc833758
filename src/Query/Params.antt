-- ===== src/Query/Params.antt =====
-- What a signed query says: parameters appended by `append_query_param` of src/utils.rs are read back
-- by `canonical_query_string` one by one.
use my_s.Base.{
  ℕ, ◌≡◌, refl, ap, sym, ◌∙◌, inl, inr, List, [], ◌∷◌, ◌++◌, append_assoc, append-nil, Option, none,
  some, Bytes, ◌==◌, if-true, if-false, Lacks, split_at-append, arith, Bool-cases,
}
use my_s.Query.Encode.{encode_uri_component, encode_uri_component-Lacks, AreBytes}
use my_s.Query.Canonical.{
  split, onto_first, pair_of, pairs_of, pairs, append_query_param, separated,
}

pub split-Lacks : (b : ℕ) (s : Bytes) → Lacks b s → split b s ≡ s ∷ []
unfolding split
split-Lacks b [] lacks = refl
split-Lacks b (c ∷ s) (ne, lacks) = ground (arith, split-Lacks b s lacks)

-- A text has at least one part.
split-cons :
    (b : ℕ) (s : Bytes) → (part : Bytes) × (parts : List Bytes) × (split b s ≡ part ∷ parts)
unfolding split
split-cons b [] = ([], [], refl)
split-cons b (c ∷ s) = elim (Bool-cases (c == b)) [
  | inl e ↦ ([], split b s, if-true _ _ e)
  | inr e ↦
      let (part, parts, spelled) = split-cons b s in
      (c ∷ part, parts, if-false _ _ e ∙ ap (onto_first c) spelled)
]

onto_first-split :
    (b c : ℕ) (s : Bytes) (more : List Bytes)
    → onto_first c (split b s ++ more) ≡ onto_first c (split b s) ++ more
onto_first-split b c s more =
    let (part, parts, spelled) = split-cons b s in
    ap (λ ps. onto_first c (ps ++ more)) spelled ∙ sym (ap (λ ps. onto_first c ps ++ more) spelled)

-- Splitting at the separator between two texts splits each of them.
pub split-append : (b : ℕ) (s t : Bytes) → split b (s ++ b ∷ t) ≡ split b s ++ split b t
unfolding split
split-append b [] t = ground arith
split-append b (c ∷ s) t = ground (arith, split-append b s t, onto_first-split b c s (split b t))

pub pairs_of-append :
    (parts more : List Bytes) → pairs_of (parts ++ more) ≡ pairs_of parts ++ pairs_of more
unfolding pairs_of
pairs_of-append [] more = refl
pairs_of-append (part ∷ parts) more = ground (arith, pairs_of-append parts more)

pub Lacks-append : (b : ℕ) (s t : Bytes) → Lacks b s → Lacks b t → Lacks b (s ++ t)
Lacks-append b [] t before after = after
Lacks-append b (c ∷ s) t (ne, before) after = (ne, Lacks-append b s t before after)

pub pairs_of-part :
    (name value : Bytes)
    → Lacks b'=' name
    → pairs_of ((name ++ b'=' ∷ value) ∷ []) ≡ (name, value) ∷ []
unfolding pairs_of pair_of
pairs_of-part [] value lacks =
    ap (λ found. pair_of (b'=' ∷ value) found ∷ []) (split_at-append b'=' [] value lacks)
pairs_of-part (c ∷ name) value lacks =
    ap (λ found. pair_of (c ∷ name ++ b'=' ∷ value) found ∷ [])
      (split_at-append b'=' (c ∷ name) value lacks)

-- The text of one parameter is one pair.
pairs-parameter :
    (name value : Bytes)
    → AreBytes name
    → AreBytes value
    → pairs (encode_uri_component name ++ b'=' ∷ encode_uri_component value)
      ≡ (encode_uri_component name, encode_uri_component value) ∷ []
unfolding pairs
pairs-parameter name value name_bytes value_bytes =
    ap pairs_of (
      split-Lacks b'&' (encode_uri_component name ++ b'=' ∷ encode_uri_component value) (
        Lacks-append b'&' (encode_uri_component name) (b'=' ∷ encode_uri_component value)
          (encode_uri_component-Lacks b'&' name (inl refl) name_bytes)
          ((λ e. omega arith), encode_uri_component-Lacks b'&' value (inl refl) value_bytes)))
    ∙ pairs_of-part (encode_uri_component name) (encode_uri_component value)
        (encode_uri_component-Lacks b'=' name (inr refl) name_bytes)

-- What is put behind the separator is split off.
pairs-separated : (query text : Bytes) → pairs (separated query ++ text) ≡ pairs query ++ pairs text
unfolding separated pairs pairs_of
pairs-separated [] text = unfold split in refl
pairs-separated (c ∷ query) text =
    ap pairs (append_assoc (c ∷ query) (b'&' ∷ []) text)
    ∙ ap pairs_of (split-append b'&' (c ∷ query) text)
    ∙ pairs_of-append (split b'&' (c ∷ query)) (split b'&' text)

-- The value of a parameter, where it has one, is made of bytes.
abbrev pub IsByteValue : Option Bytes → Type 0
IsByteValue none = Unit {0}
IsByteValue (some text) = AreBytes text

-- A parameter that is appended is read back as one more pair, its name and its value encoded, behind
-- the pairs the query had, whatever bytes the two hold and whatever the query was; a parameter
-- without a value adds none.
pub pairs-append_query_param :
    (query name : Bytes) (value : Option Bytes)
    → AreBytes name
    → IsByteValue value
    → pairs (append_query_param query name value)
      ≡ pairs query ++ elim value [
        | none ↦ []
        | some text ↦ (encode_uri_component name, encode_uri_component text) ∷ []
      ]
unfolding append_query_param
pairs-append_query_param query name none name_bytes value_bytes = sym (append-nil (pairs query))
pairs-append_query_param query name (some text) name_bytes value_bytes =
    pairs-separated query (encode_uri_component name ++ b'=' ∷ encode_uri_component text)
    ∙ ap (pairs query ++◌) (pairs-parameter name text name_bytes value_bytes)
