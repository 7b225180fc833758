-- ===== src/Client/Places.antt =====
-- The region of a bucket, which src/s3_client.rs states when it creates one and reads when it asks.
use my_s.Base.{
  ◌≡◌, refl, ap, sym, ◌∙◌, inl, inr, ◌||◌, true, false, Bool-cases, if-true, if-false, Option, none,
  some, [], ◌∷◌, ◌++◌, Bytes, codes, length, length-append, is_empty, bytes_eq, bytes_eq_iff, ok,
  subst, arith,
}
use my_s.Region.{S3Region, as_str, from_str, aws_us_east1, is_us_east_1, no_region}
use my_s.Region.RoundTrip.{as_str-from_str}
use my_s.Xml.Walker.{XmlReader, read_node_text}
use my_s.Client.Answers.{
  create_bucket_configuration, configuration_head, configuration_tail, parse_bucket_location,
  located,
}

cancel_front : (p s t : Bytes) → p ++ s ≡ p ++ t → s ≡ t
cancel_front [] s t e = e
cancel_front (c ∷ p) s t e = cancel_front p s t cc

cancel_back : (s t p : Bytes) → s ++ p ≡ t ++ p → s ≡ t
cancel_back [] [] p e = refl
cancel_back [] (d ∷ t) p e = absurd (omega (arith, ap length e, length-append t p))
cancel_back (c ∷ s) [] p e = absurd (omega (arith, ap length e, length-append s p))
cancel_back (c ∷ s) (d ∷ t) p e = both (head_of e) (cancel_back s t p (tail_of e))
  where
    both : c ≡ d → s ≡ t → c ∷ s ≡ d ∷ t
    both h r = cc

    head_of : ◌≡◌ {A = Bytes} (c ∷ (s ++ p)) (d ∷ (t ++ p)) → c ≡ d
    head_of e = cc

    tail_of : ◌≡◌ {A = Bytes} (c ∷ (s ++ p)) (d ∷ (t ++ p)) → s ++ p ≡ t ++ p
    tail_of e = cc

-- The name under which the storage keeps the region of a bucket: the one that the body states, and the
-- empty one where there is no body.
abbrev pub IsKept : Option Bytes → Bytes → Type 0
IsKept none name = name ≡ []
IsKept (some configuration) name = configuration ≡ configuration_head ++ name ++ configuration_tail

kept-us_east_1 :
    (region : S3Region) (name : Bytes)
    → is_us_east_1 region ≡ true
    → IsKept (create_bucket_configuration region) name
    → name ≡ []
unfolding create_bucket_configuration
kept-us_east_1 region name default kept =
    subst (λ c. IsKept c name) (if-true _ _ (ap (no_region region ||◌) default ∙ right)) kept
  where
    right : (no_region region || true) ≡ true
    right = ground arith

kept-as_str :
    (region : S3Region) (name : Bytes)
    → no_region region ≡ false
    → is_us_east_1 region ≡ false
    → IsKept (create_bucket_configuration region) name
    → name ≡ as_str region
unfolding create_bucket_configuration
kept-as_str region name there placed kept = sym (
    cancel_front configuration_head (as_str region) name (
      cancel_back (configuration_head ++ as_str region) (configuration_head ++ name)
        configuration_tail
        (subst (λ c. IsKept c name)
          (if-false _ _ (ap (λ b. b || is_us_east_1 region) there ∙ placed)) kept)))

located-named :
    (E : Type 0) (body name : Bytes)
    → is_empty name ≡ false
    → located {E = E} body (some name) ≡ ok (from_str name)
unfolding located
located-named E body name there = if-false _ _ there

located-empty : (E : Type 0) (body : Bytes) → located {E = E} body (some []) ≡ ok aws_us_east1
unfolding located
located-empty E body = refl

us_east_1 : from_str (codes "us-east-1") ≡ aws_us_east1
unfolding from_str bytes_eq
us_east_1 = refl

is_us_east_1-named :
    (region : S3Region) → is_us_east_1 region ≡ true → as_str region ≡ codes "us-east-1"
unfolding is_us_east_1
is_us_east_1-named region e = (bytes_eq_iff (as_str region) (codes "us-east-1")).0 e

no_region-named : (region : S3Region) → no_region region ≡ is_empty (as_str region)
unfolding no_region
no_region-named region = refl

-- A bucket is reported to be in the region in which it was created: if the storage keeps the region
-- that the body of the creation states, and answers a question for it with an element that holds this
-- name, the client reads the region that it was configured with, whatever text it was configured from;
-- `us-east-1` too, which is stated by sending no body and comes back as an empty element.
pub parse_bucket_location-create :
    (E : Type 0) {R T N : Type 0} (xml : XmlReader R T N) (src name body : Bytes)
    → is_empty src ≡ false
    → IsKept (create_bucket_configuration (from_str src)) name
    → read_node_text xml body (codes "LocationConstraint") ≡ some name
    → parse_bucket_location {E = E} xml body ≡ ok (from_str src)
unfolding parse_bucket_location
parse_bucket_location-create E xml src name body stated kept read =
    ap (located body) read ∙ elim (Bool-cases (is_us_east_1 (from_str src))) [
      | inl default ↦
          ap (λ n. located body (some n)) (kept-us_east_1 (from_str src) name default kept)
          ∙ located-empty E body
          ∙ ap ok (
              sym us_east_1
              ∙ ap from_str (sym (is_us_east_1-named (from_str src) default) ∙ written))
      | inr placed ↦
          let same : name ≡ src = kept-as_str (from_str src) name there placed kept ∙ written in
          ap (λ n. located body (some n)) same ∙ located-named E body src stated
    ]
  where
    written : as_str (from_str src) ≡ src
    written = (as_str-from_str src).0

    there : no_region (from_str src) ≡ false
    there = no_region-named (from_str src) ∙ ap is_empty written ∙ stated
