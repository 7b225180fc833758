-- ===== src/Listing/Tests.antt =====
-- Listings of src/list_objects.rs at concrete inputs.
use my_s.Base.{
  ℕ, zero, suc, ◌<◌, ◌≤◌, ◌≡◌, refl, [], Option, none, some, Bytes, codes, length, Result, ok,
  arith, trim,
}
use my_s.Error.{S3Error}
use my_s.Xml.Safe.{is_safe_to_read}
use my_s.Xml.Walker.{XmlReader}
use my_s.Xml.Walker.Forward.{Moves}
use my_s.Listing.{S3ListObjectsPage}
use my_s.Listing.Loops.{parse_list_objects_v2}
use my_s.Listing.Pages.{Resumes, parse_list_objects_v2-Resumes}

abbrev Error : Type 0
Error = Unit {0}

-- A tag by its level and its name.
abbrev Found : Type 0
Found = ℕ × Bytes

-- The children of the root: a token, then `IsTruncated`, then none.
abbrev child : ℕ → Result (Option Found × ℕ) Bytes
child zero = ok (none, 0)
child (suc zero) = ok (some (1, codes "IsTruncated"), 0)
child (suc (suc n)) = ok (some (1, codes "NextContinuationToken"), suc n)

-- A reader whose place is the number of children that are left; the text of each child is `True`.
abbrev xml : XmlReader ℕ Found Bytes
xml = record {
  from_slice = λ body. ok (length body);
  find_the_open_node = λ r path. ok (some (0, path), r);
  read_next_tag = λ r. ok (none, r);
  find_any_of_these_nodes_inside_parent = λ r parent names. child r;
  read_the_whole_node = λ r node. ok (codes "True", r);
  start_pos = λ t. 0;
  end_pos = λ t. 0;
  level = λ t. t.0;
  name = λ t. t.1;
  raw = λ t. [];
  get_inner_content = λ n. some n;
  get_node_name = λ n. n;
}

child-further : (r : ℕ) (found : Found) (after : ℕ) → child r ≡ ok (some found, after) → after < r
child-further zero found after e = cc
child-further (suc zero) found after e = ground arith
child-further (suc (suc n)) found after e = ground arith

child-last : (r after : ℕ) → child r ≡ ok (none, after) → after ≤ r
child-last zero after e = ground arith
child-last (suc zero) after e = cc
child-last (suc (suc n)) after e = cc

xml-Moves : Moves xml (λ r. r)
xml-Moves = record {
  slices = λ body r e. ground arith;
  opens = λ r name found after e. ground arith;
  finds = λ r parent names found after e. child-further r found after e;
  stays = λ r parent names after e. child-last r after e;
  reads = λ r node whole after e. ground arith;
}

abbrev body : Bytes
body = codes "<a></a>"

test_parse_list_objects_v2 :
    parse_list_objects_v2 {E = Error} xml body
    ≡ some (
        ok (record {
          common_prefixes = [];
          objects = [];
          next_continuation_token = some (codes "True");
        }))
unfolding parse_list_objects_v2 is_safe_to_read trim
test_parse_list_objects_v2 = refl

parse_list_objects_v2-Resumes_example :
    (outcome : Result S3ListObjectsPage (S3Error Error)) × (parse_list_objects_v2 xml body
      ≡ some outcome)
    × Resumes outcome
parse_list_objects_v2-Resumes_example =
    parse_list_objects_v2-Resumes Error xml (λ r. r) xml-Moves body
