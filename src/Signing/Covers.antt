-- ===== src/Signing/Covers.antt =====
-- What a signature of src/utils.rs covers, and the form of its date.
use my_s.Base.{
  ℕ, ◌≡◌, ap, sym, ◌∙◌, [], ◌∷◌, ◌++◌, Option, some, Bytes, codes, Lacks, split_at, split_at-append,
}
use my_s.Signing.{Request, canonical_request, new_line}

-- Two texts that are split at their first `b` are the same text only if both parts are.
split_same :
    (b : ℕ) (s s' t t' : Bytes)
    → Lacks b s
    → Lacks b s'
    → s ++ b ∷ t ≡ s' ++ b ∷ t'
    → (s ≡ s') × (t ≡ t')
split_same b s s' t t' plain plain' e =
    parts (sym (split_at-append b s t plain) ∙ ap (split_at b) e ∙ split_at-append b s' t' plain')
  where
    parts : ◌≡◌ {A = Option (Bytes × Bytes)} (some (s, t)) (some (s', t')) → (s ≡ s') × (t ≡ t')
    parts f = (cc, cc)

drop_same : (p s t : Bytes) → p ++ s ≡ p ++ t → s ≡ t
drop_same [] s t e = e
drop_same (c ∷ p) s t e = drop_same p s t cc

-- The parts of a request, none of which breaks its line.
abbrev pub OneLine : Request → Type 0
OneLine r =
    Lacks new_line r.method
    × Lacks new_line r.canonical_uri
    × Lacks new_line r.canonical_query
    × Lacks new_line r.host
    × Lacks new_line r.payload_hash
    × Lacks new_line r.timestamp

-- What is hashed and signed determines the request: two requests without line breaks in their parts
-- that have the same canonical request have the same method, path, query, host, payload hash and time.
pub canonical_request-OneLine :
    (r r' : Request)
    → OneLine r
    → OneLine r'
    → canonical_request r ≡ canonical_request r'
    → (r.method ≡ r'.method)
      × (r.canonical_uri ≡ r'.canonical_uri)
      × (r.canonical_query ≡ r'.canonical_query)
      × (r.host ≡ r'.host)
      × (r.payload_hash ≡ r'.payload_hash)
      × (r.timestamp ≡ r'.timestamp)
unfolding canonical_request
canonical_request-OneLine r r' (m, u, q, h, p, t) (m', u', q', h', p', t') e =
    let (method, after_method) = split_same new_line r.method r'.method _ _ m m' e in
    let (uri, after_uri) =
      split_same new_line r.canonical_uri r'.canonical_uri _ _ u u' after_method in
    let (query, after_query) =
      split_same new_line r.canonical_query r'.canonical_query _ _ q q' after_uri in
    let (host, after_host) =
      split_same new_line r.host r'.host _ _ h h' (drop_same (codes "host:") _ _ after_query) in
    let (hash, after_hash) =
      split_same new_line r.payload_hash r'.payload_hash _ _ p p'
        (drop_same (codes "x-amz-content-sha256:") _ _ after_host) in
    let (time, _) =
      split_same new_line r.timestamp r'.timestamp _ _ t t'
        (drop_same (codes "x-amz-date:") _ _ after_hash) in
    (method, uri, query, host, hash, time)
