-- ===== src/Region.antt =====
-- src/region.rs: the regions that a client can be configured for.
pub mod RoundTrip
mod Tests
use my_s.Base.{Bool, List, [], ◌∷◌, Bytes, codes, bytes_eq, match_str, is_empty}

-- `enum S3Region`.
pub data S3Region : Type 0 where
  aws_us_east1 aws_us_east2 aws_us_west1 aws_us_west2 aws_ca_central1 aws_ca_west1 : S3Region
  aws_mx_central1 aws_sa_east1 aws_eu_west1 aws_eu_west2 aws_eu_west3 aws_eu_central1 : S3Region
  aws_eu_central2 aws_eu_north1 aws_eu_south1 aws_eu_south2 aws_ap_east1 aws_ap_south1 : S3Region
  aws_ap_south2 aws_ap_southeast1 aws_ap_southeast2 aws_ap_southeast3 aws_ap_southeast4 : S3Region
  aws_ap_northeast1 aws_ap_northeast2 aws_ap_northeast3 aws_me_central1 aws_me_south1 : S3Region
  aws_il_central1 aws_af_south1 aws_us_gov_east1 aws_us_gov_west1 aws_cn_north1 : S3Region
  aws_cn_northwest1 hetzner_fsn1 hetzner_nbg1 hetzner_hel1 : S3Region
  -- Any region that the catalogue does not name.
  other : Bytes → S3Region

unfoldable pub as_str : S3Region → Bytes
as_str aws_us_east1 = codes "us-east-1"
as_str aws_us_east2 = codes "us-east-2"
as_str aws_us_west1 = codes "us-west-1"
as_str aws_us_west2 = codes "us-west-2"
as_str aws_ca_central1 = codes "ca-central-1"
as_str aws_ca_west1 = codes "ca-west-1"
as_str aws_mx_central1 = codes "mx-central-1"
as_str aws_sa_east1 = codes "sa-east-1"
as_str aws_eu_west1 = codes "eu-west-1"
as_str aws_eu_west2 = codes "eu-west-2"
as_str aws_eu_west3 = codes "eu-west-3"
as_str aws_eu_central1 = codes "eu-central-1"
as_str aws_eu_central2 = codes "eu-central-2"
as_str aws_eu_north1 = codes "eu-north-1"
as_str aws_eu_south1 = codes "eu-south-1"
as_str aws_eu_south2 = codes "eu-south-2"
as_str aws_ap_east1 = codes "ap-east-1"
as_str aws_ap_south1 = codes "ap-south-1"
as_str aws_ap_south2 = codes "ap-south-2"
as_str aws_ap_southeast1 = codes "ap-southeast-1"
as_str aws_ap_southeast2 = codes "ap-southeast-2"
as_str aws_ap_southeast3 = codes "ap-southeast-3"
as_str aws_ap_southeast4 = codes "ap-southeast-4"
as_str aws_ap_northeast1 = codes "ap-northeast-1"
as_str aws_ap_northeast2 = codes "ap-northeast-2"
as_str aws_ap_northeast3 = codes "ap-northeast-3"
as_str aws_me_central1 = codes "me-central-1"
as_str aws_me_south1 = codes "me-south-1"
as_str aws_il_central1 = codes "il-central-1"
as_str aws_af_south1 = codes "af-south-1"
as_str aws_us_gov_east1 = codes "us-gov-east-1"
as_str aws_us_gov_west1 = codes "us-gov-west-1"
as_str aws_cn_north1 = codes "cn-north-1"
as_str aws_cn_northwest1 = codes "cn-northwest-1"
as_str hetzner_fsn1 = codes "fsn1"
as_str hetzner_nbg1 = codes "nbg1"
as_str hetzner_hel1 = codes "hel1"
as_str (other region) = region

-- The arms of the `match` in `from_str`.
abbrev arms : List (Bytes × S3Region)
arms =
    (codes "us-east-1", aws_us_east1)
    ∷ (codes "us-east-2", aws_us_east2)
    ∷ (codes "us-west-1", aws_us_west1)
    ∷ (codes "us-west-2", aws_us_west2)
    ∷ (codes "ca-central-1", aws_ca_central1)
    ∷ (codes "ca-west-1", aws_ca_west1)
    ∷ (codes "mx-central-1", aws_mx_central1)
    ∷ (codes "sa-east-1", aws_sa_east1)
    ∷ (codes "eu-west-1", aws_eu_west1)
    ∷ (codes "eu-west-2", aws_eu_west2)
    ∷ (codes "eu-west-3", aws_eu_west3)
    ∷ (codes "eu-central-1", aws_eu_central1)
    ∷ (codes "eu-central-2", aws_eu_central2)
    ∷ (codes "eu-north-1", aws_eu_north1)
    ∷ (codes "eu-south-1", aws_eu_south1)
    ∷ (codes "eu-south-2", aws_eu_south2)
    ∷ (codes "ap-east-1", aws_ap_east1)
    ∷ (codes "ap-south-1", aws_ap_south1)
    ∷ (codes "ap-south-2", aws_ap_south2)
    ∷ (codes "ap-southeast-1", aws_ap_southeast1)
    ∷ (codes "ap-southeast-2", aws_ap_southeast2)
    ∷ (codes "ap-southeast-3", aws_ap_southeast3)
    ∷ (codes "ap-southeast-4", aws_ap_southeast4)
    ∷ (codes "ap-northeast-1", aws_ap_northeast1)
    ∷ (codes "ap-northeast-2", aws_ap_northeast2)
    ∷ (codes "ap-northeast-3", aws_ap_northeast3)
    ∷ (codes "me-central-1", aws_me_central1)
    ∷ (codes "me-south-1", aws_me_south1)
    ∷ (codes "il-central-1", aws_il_central1)
    ∷ (codes "af-south-1", aws_af_south1)
    ∷ (codes "us-gov-east-1", aws_us_gov_east1)
    ∷ (codes "us-gov-west-1", aws_us_gov_west1)
    ∷ (codes "cn-north-1", aws_cn_north1)
    ∷ (codes "cn-northwest-1", aws_cn_northwest1)
    ∷ (codes "fsn1", hetzner_fsn1)
    ∷ (codes "nbg1", hetzner_nbg1)
    ∷ (codes "hel1", hetzner_hel1)
    ∷ []

unfoldable pub from_str : Bytes → S3Region
unfolding match_str
from_str src = match_str src arms (other src)

unfoldable pub is_us_east_1 : S3Region → Bool
unfolding as_str bytes_eq
is_us_east_1 region = bytes_eq (as_str region) (codes "us-east-1")

-- `S3Region::is_empty`.
unfoldable pub no_region : S3Region → Bool
unfolding as_str
no_region region = is_empty (as_str region)

-- `From<String>`: the owned string is kept where nothing in the catalogue matches.
keep_owned : Bytes → S3Region → S3Region
keep_owned value (other region) = other value
keep_owned value known = known

unfoldable pub from_string : Bytes → S3Region
unfolding from_str keep_owned
from_string value = keep_owned value (from_str value)
