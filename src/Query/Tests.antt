-- ===== src/Query/Tests.antt =====
-- Query strings of src/utils.rs at concrete inputs.
use my_s.Base.{◌≡◌, refl, some, codes, List, [], ◌∷◌, split_at, split_at-none}
use my_s.Query.Encode.{encode_uri_component}
use my_s.Query.Canonical.{Pair, canonical_query_string}
use my_s.Query.Order.{occurrences}
use my_s.Query.Readback.{
  Part, blank, flag, valued, AllParts, meant, listed, InOrder, canonical_query_string-InOrder,
}

test_encode_uri_component :
    encode_uri_component (codes "photos/2024 summer/~") ≡ codes "photos%2F2024%20summer%2F~"
unfolding encode_uri_component
test_encode_uri_component = refl

test_canonical_query_string :
    canonical_query_string (some (codes "a-b=1&a=2&uploads&a=1")) ≡ codes "a=1&a=2&a-b=1&uploads="
unfolding canonical_query_string
test_canonical_query_string = refl

-- `b=1&uploads&&a=2`.
abbrev parts : List Part
parts =
    valued (codes "b") (codes "1")
    ∷ flag (codes "uploads")
    ∷ blank
    ∷ valued (codes "a") (codes "2")
    ∷ []

parts-AllParts : AllParts parts
unfolding split_at
parts-AllParts = (
  (
    split_at-none b'=' (codes "b") refl,
    split_at-none b'&' (codes "b") refl,
    split_at-none b'&' (codes "1") refl,
  ),
  (
    (
      (λ e. cc),
      split_at-none b'=' (codes "uploads") refl,
      split_at-none b'&' (codes "uploads") refl,
    ),
    (
      tt,
      (
        (
          split_at-none b'=' (codes "a") refl,
          split_at-none b'&' (codes "a") refl,
          split_at-none b'&' (codes "2") refl,
        ),
        tt,
      ),
    ),
  ),
)

canonical_query_string-InOrder_example :
    (qs : List Pair) × (canonical_query_string (some (codes "b=1&uploads&&a=2")) ≡ listed qs)
    × InOrder qs
    × ((p : Pair) → occurrences p qs ≡ occurrences p (meant parts))
canonical_query_string-InOrder_example = canonical_query_string-InOrder parts parts-AllParts
