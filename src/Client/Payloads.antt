-- ===== src/Client/Payloads.antt =====
-- What the requests of src/s3_client.rs carry in their queries and bodies, and what of an answer is
-- read.
use my_s.Base.{
  ℕ, ◌&&◌, Option, none, some, [], ◌∷◌, ◌++◌, Bytes, codes, decimal, ◌==◌, if◌then◌else◌, Result,
  ok, err,
}
use my_s.Error.{S3Error}
use my_s.Query.Encode.{encode_uri_component}
use my_s.Query.Canonical.{append_query_param}
use my_s.Listing.{S3ListObjectsPage}
use my_s.Client.Answers.{Answer}
use my_s.Client.Objects.{Range, expected_status, is_ranged}
use my_s.Client.Transport.{HttpRequestBody, from_raw_data, empty}

-- `S3ListObjectsRequest`.
pub record S3ListObjectsRequest : Type 0 where
  pub prefix : Option Bytes
  pub delimiter : Option Bytes
  pub continuation_token : Option Bytes
  pub max_keys : Option ℕ

unfoldable pub number_text : Option ℕ → Option Bytes
number_text none = none
number_text (some n) = some (decimal n)

-- The query of `list_objects_v2`.
unfoldable pub list_query : S3ListObjectsRequest → Bytes
unfolding append_query_param number_text
list_query request =
    let query = codes "list-type=2" in
    let query = append_query_param query (codes "prefix") request.prefix in
    let query = append_query_param query (codes "delimiter") request.delimiter in
    let query = append_query_param query (codes "continuation-token") request.continuation_token in
    append_query_param query (codes "max-keys") (number_text request.max_keys)

unfoldable pub path_and_query : Bytes → Bytes → Bytes
unfolding encode_uri_component
path_and_query bucket_name query = b'/' ∷ (encode_uri_component bucket_name ++ (b'?' ∷ query))

-- `configuration.as_deref().unwrap_or_default()`.
unfoldable pub signed_payload : Option Bytes → Bytes
signed_payload none = []
signed_payload (some configuration) = configuration

unfoldable pub body_of : Option Bytes → HttpRequestBody
body_of (some configuration) = from_raw_data configuration (some (codes "application/xml"))
body_of none = empty

-- The body of an answer that `open_object` reads: that of a failure, and not that of an object.
unfoldable pub read_of_failure : {E : Type 0} → Option Range → Answer E → Result (Option Bytes) E
unfolding expected_status is_ranged
read_of_failure range answer =
    if answer.status_code == expected_status range
    then ok none
    else if (is_ranged range) && (answer.status_code == 416)
    then ok none
    else if (is_ranged range) && (answer.status_code == 200)
    then ok none
    else elim answer.body [ ok body ↦ ok (some body) | err error ↦ err error ]

-- A page, or the fuel of its loop ran out: `Listing.Pages` shows for which readers it does not.
unfoldable pub page_within :
    {E : Type 0}
    → Option (Result S3ListObjectsPage (S3Error E))
    → Result (Option S3ListObjectsPage) (S3Error E)
page_within none = ok none
page_within (some (ok page)) = ok (some page)
page_within (some (err error)) = err error
