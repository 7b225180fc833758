-- ===== src/Client/ListQuery.antt =====
-- The query of `list_objects_v2` in src/s3_client.rs, read back from its text.
use my_s.Base.{
  ℕ, zero, suc, ◌/◌, ◌≡◌, refl, ap, sym, ◌∙◌, inl, inr, true, Bool, ◌&&◌, List, [], ◌∷◌, ◌++◌,
  Option, none, some, Bytes, codes, decimal, digits, ltb, if-true, if-false, Bool-cases, subst,
  arith, split_at, append_assoc,
}
use my_s.Query.Encode.{
  AreBytes, encode_uri_component, decode_uri_component, decode-encode_uri_component,
}
use my_s.Query.Canonical.{Pair, pairs, pairs_of, pair_of, split, append_query_param}
use my_s.Query.Params.{IsByteValue, pairs-append_query_param}
use my_s.Client.Payloads.{S3ListObjectsRequest, list_query, number_text}

-- The parameters behind their encoding.
unfoldable pub decoded : List Pair → List Pair
unfolding decode_uri_component
decoded [] = []
decoded ((name, value) ∷ ps) = (decode_uri_component name, decode_uri_component value) ∷ decoded ps

-- A parameter that is asked for.
abbrev pub given : Bytes → Option Bytes → List Pair
given name none = []
given name (some value) = (name, value) ∷ []

-- What a request asks for, in the order in which it is sent.
abbrev pub parameters : S3ListObjectsRequest → List Pair
parameters request =
    (codes "list-type", codes "2")
    ∷ (given (codes "prefix") request.prefix
        ++ (given (codes "delimiter") request.delimiter
            ++ (given (codes "continuation-token") request.continuation_token
                ++ given (codes "max-keys") (number_text request.max_keys))))

are_bytes : Bytes → Bool
are_bytes [] = true
are_bytes (c ∷ s) = ltb c 256 && are_bytes s

are_bytes-AreBytes : (s : Bytes) → are_bytes s ≡ true → AreBytes s
unfolding are_bytes
are_bytes-AreBytes [] e = tt
are_bytes-AreBytes (c ∷ s) e = (ground arith, are_bytes-AreBytes s (ground arith))

digits-AreBytes : (f n : ℕ) (out : Bytes) → AreBytes out → AreBytes (digits f n out)
unfolding digits
digits-AreBytes zero n out bytes = bytes
digits-AreBytes (suc f) n out bytes = elim (Bool-cases (ltb n 10)) [
  | inl small ↦ subst AreBytes (sym (if-true _ _ small)) (ground arith, bytes)
  | inr large ↦
      subst AreBytes (sym (if-false _ _ large)) (digits-AreBytes f (n / 10) _ (omega arith, bytes))
]

number_text-IsByteValue : (n : Option ℕ) → IsByteValue (number_text n)
unfolding number_text decimal
number_text-IsByteValue none = tt
number_text-IsByteValue (some n) = digits-AreBytes 20 n [] tt

decoded-append : (ps qs : List Pair) → decoded (ps ++ qs) ≡ decoded ps ++ decoded qs
unfolding decoded
decoded-append [] qs = refl
decoded-append ((name, value) ∷ ps) qs =
    ap ((decode_uri_component name, decode_uri_component value) ∷◌) (decoded-append ps qs)

-- One parameter more is one pair more.
decoded-append_query_param :
    (query name : Bytes) (value : Option Bytes)
    → are_bytes name ≡ true
    → IsByteValue value
    → decoded (pairs (append_query_param query name value))
      ≡ decoded (pairs query) ++ given name value
unfolding decoded are_bytes
decoded-append_query_param query name value name_bytes value_bytes =
    ap decoded (pairs-append_query_param query name value named value_bytes)
    ∙ decoded-append (pairs query) _
    ∙ ap (decoded (pairs query) ++◌) (one value value_bytes)
  where
    named : AreBytes name
    named = are_bytes-AreBytes name name_bytes

    one :
        (value : Option Bytes)
        → IsByteValue value
        → decoded (elim value [
          | none ↦ []
          | some text ↦ (encode_uri_component name, encode_uri_component text) ∷ []
        ])
          ≡ given name value
    one none bytes = refl
    one (some text) bytes =
        ap (λ n. (n, decode_uri_component (encode_uri_component text)) ∷ [])
          (decode-encode_uri_component name named)
        ∙ ap (λ v. (name, v) ∷ []) (decode-encode_uri_component text bytes)

listing_type : decoded (pairs (codes "list-type=2")) ≡ (codes "list-type", codes "2") ∷ []
unfolding decoded pairs pairs_of pair_of split split_at decode_uri_component
listing_type = refl

regroup :
    (ps qs rs ss : List Pair) {p : Pair}
    → (((p ∷ ps) ++ qs) ++ rs) ++ ss ≡ p ∷ (ps ++ (qs ++ (rs ++ ss)))
regroup ps qs rs ss = simp append_assoc

-- The query of a listing says what was asked for and nothing else: read back pair by pair and decoded
-- it is the type of the listing, then each parameter that the request gives, in order, with its value,
-- whatever bytes the values hold; a parameter that is not given is not sent.
pub list_query-parameters :
    (request : S3ListObjectsRequest)
    → IsByteValue request.prefix
    → IsByteValue request.delimiter
    → IsByteValue request.continuation_token
    → decoded (pairs (list_query request)) ≡ parameters request
unfolding list_query are_bytes
list_query-parameters request prefix_bytes delimiter_bytes token_bytes =
    decoded-append_query_param _ (codes "max-keys") (number_text request.max_keys) refl
      (number_text-IsByteValue request.max_keys)
    ∙ ap (◌++ given (codes "max-keys") (number_text request.max_keys)) (
        decoded-append_query_param _ (codes "continuation-token") request.continuation_token refl
          token_bytes
        ∙ ap (◌++ given (codes "continuation-token") request.continuation_token) (
            decoded-append_query_param _ (codes "delimiter") request.delimiter refl delimiter_bytes
            ∙ ap (◌++ given (codes "delimiter") request.delimiter) (
                decoded-append_query_param (codes "list-type=2") (codes "prefix") request.prefix
                  refl prefix_bytes
                ∙ ap (◌++ given (codes "prefix") request.prefix) listing_type)))
    ∙ regroup (given _ request.prefix) (given _ request.delimiter)
        (given _ request.continuation_token) _
