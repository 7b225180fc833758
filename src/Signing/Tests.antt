-- ===== src/Signing/Tests.antt =====
-- Signing of src/utils.rs at concrete inputs.
use my_s.Base.{◌≡◌, refl, [], codes, arith}
use my_s.Signing.{Request, get_amz_timestamp}
use my_s.Signing.Covers.{OneLine, canonical_request-OneLine}

test_get_amz_timestamp :
    get_amz_timestamp (codes "2012-02-15T09:08:07.123456+00:00") ≡ codes "20120215T090807Z"
unfolding get_amz_timestamp
test_get_amz_timestamp = refl

abbrev request : Request
request = record {
  method = codes "G";
  canonical_uri = codes "/";
  canonical_query = [];
  host = codes "h";
  payload_hash = codes "0";
  timestamp = codes "2";
}

request-OneLine : OneLine request
request-OneLine = (
  ((λ e. omega arith), tt),
  ((λ e. omega arith), tt),
  tt,
  ((λ e. omega arith), tt),
  ((λ e. omega arith), tt),
  ((λ e. omega arith), tt),
)

canonical_request-OneLine_example :
    (request.method ≡ request.method)
    × (request.canonical_uri ≡ request.canonical_uri)
    × (request.canonical_query ≡ request.canonical_query)
    × (request.host ≡ request.host)
    × (request.payload_hash ≡ request.payload_hash)
    × (request.timestamp ≡ request.timestamp)
canonical_request-OneLine_example =
    canonical_request-OneLine request request request-OneLine request-OneLine refl
