-- ===== src/Query/Canonical.antt =====
-- `canonical_query_string` and `append_query_param` of src/utils.rs.
use my_s.Base.{
  ℕ, Bool, true, false, List, [], ◌∷◌, ◌++◌, Option, none, some, Bytes, bytes_eq, is_empty, ltb,
  ◌==◌, if◌then◌else◌, split_at,
}
use my_s.Query.Encode.{encode_uri_component}

-- A name and its value.
abbrev pub Pair : Type 0
Pair = Bytes × Bytes

abbrev pub onto_first : ℕ → List Bytes → List Bytes
onto_first c [] = (c ∷ []) ∷ []
onto_first c (part ∷ parts) = (c ∷ part) ∷ parts

-- `split(b)` of the language's library: the parts between the bytes `b`, empty ones included.
unfoldable pub split : ℕ → Bytes → List Bytes
split b [] = [] ∷ []
split b (c ∷ s) = let parts = split b s in if c == b then [] ∷ parts else onto_first c parts

unfoldable pub pair_of : Bytes → Option Pair → Pair
pair_of part (some (name, value)) = (name, value)
pair_of part none = (part, [])

-- The parts that are not empty, each split at its first `=`.
unfoldable pub pairs_of : List Bytes → List Pair
unfolding pair_of split_at
pairs_of [] = []
pairs_of (part ∷ parts) =
    let rest = pairs_of parts in
    if is_empty part then rest else pair_of part (split_at b'=' part) ∷ rest

unfoldable pub pairs : Bytes → List Pair
unfolding pairs_of split
pairs query = pairs_of (split b'&' query)

-- The order of `&str`: byte by byte, a prefix before what continues it.
unfoldable pub bytes_le : Bytes → Bytes → Bool
bytes_le [] t = true
bytes_le (x ∷ s) [] = false
bytes_le (x ∷ s) (y ∷ t) =
    let rest = bytes_le s t in if ltb x y then true else if x == y then rest else false

-- The order of the tuples.
unfoldable pub pair_le : Pair → Pair → Bool
unfolding bytes_le bytes_eq
pair_le (name1, value1) (name2, value2) =
    if bytes_eq name1 name2 then bytes_le value1 value2 else bytes_le name1 name2

unfoldable pub insert : Pair → List Pair → List Pair
unfolding pair_le
insert p [] = p ∷ []
insert p (q ∷ qs) = let rest = insert p qs in if pair_le p q then p ∷ q ∷ qs else q ∷ rest

-- `sort_unstable`: pairs that are equal in the order are the same, so that every way to sort comes
-- to one list.
unfoldable pub sort_unstable : List Pair → List Pair
unfolding insert
sort_unstable [] = []
sort_unstable (p ∷ ps) = insert p (sort_unstable ps)

unfoldable pub write_pair : Pair → Bytes
write_pair (name, value) = name ++ b'=' ∷ value

unfoldable pub write_rest : List Pair → Bytes
unfolding write_pair
write_rest [] = []
write_rest (p ∷ ps) = b'&' ∷ write_pair p ++ write_rest ps

unfoldable pub write_pairs : List Pair → Bytes
unfolding write_pair write_rest
write_pairs [] = []
write_pairs (p ∷ ps) = write_pair p ++ write_rest ps

unfoldable pub canonical_query_string : Option Bytes → Bytes
unfolding pairs sort_unstable write_pairs
canonical_query_string none = []
canonical_query_string (some query) =
    if is_empty query then [] else write_pairs (sort_unstable (pairs query))

-- The separator in front of a further parameter.
unfoldable pub separated : Bytes → Bytes
separated query = if is_empty query then [] else query ++ b'&' ∷ []

-- The query after the call; a parameter without a value appends nothing.
unfoldable pub append_query_param : Bytes → Bytes → Option Bytes → Bytes
unfolding separated encode_uri_component
append_query_param query name none = query
append_query_param query name (some value) =
    separated query ++ (encode_uri_component name ++ b'=' ∷ encode_uri_component value)
