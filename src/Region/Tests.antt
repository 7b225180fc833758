-- ===== src/Region/Tests.antt =====
-- The regions of src/region.rs at concrete inputs.
use my_s.Base.{◌≡◌, codes}
use my_s.Region.{as_str, from_str, from_string}
use my_s.Region.RoundTrip.{as_str-from_str}

as_str-from_str_example :
    (as_str (from_str (codes "eu-west-9")) ≡ codes "eu-west-9")
    × (from_string (codes "eu-west-9") ≡ from_str (codes "eu-west-9"))
as_str-from_str_example = as_str-from_str (codes "eu-west-9")
