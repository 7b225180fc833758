-- ===== src/Listing/PageTests.antt =====
-- A page of src/list_objects.rs at a concrete document.
use my_s.Base.{
  bytes_eq, ℕ, ◌<◌, ◌≤◌, ◌≡◌, refl, inl, inr, true, List, [], ◌∷◌, Option, none, some, Bytes, codes,
  length, drop, ltb, leb, if◌then◌else◌, Result, ok, err, trim, parse_u64, is_utf8, arith,
}
use my_s.Xml.Safe.{is_safe_to_read}
use my_s.Xml.Entities.{escape, escape_byte}
use my_s.Xml.Walker.{XmlReader, is_self_closing}
use my_s.Xml.Walker.Told.{TextAt, Told, named}
use my_s.Xml.Walker.Forward.{Moves}
use my_s.Listing.{S3ObjectInfo, S3ListObjectsPage, eq_ignore_ascii_case}
use my_s.Listing.Loops.{parse_list_objects_v2}
use my_s.Listing.Contents.{
  Field, key, size, last_modified, etag, Describes, Entry, object, folders, truncated, token, Holds,
  FieldAt, EntryAt, field_names, entry_names,
}
use my_s.Listing.Readback.{parse_list_objects_v2-Holds}

abbrev Error : Type 0
Error = Unit {0}

-- A node by its level, its name and its content.
abbrev Node : Type 0
Node = ℕ × (Bytes × Bytes)

abbrev body : Bytes
body =
    codes
      "<ListBucketResult><Name>b</Name><Contents><Size>3</Size><Owner><Key>o</Key></Owner><Key>a&amp;b</Key><LastModified>d</LastModified><ETag>e</ETag></Contents><IsTruncated>True</IsTruncated><NextContinuationToken>t</NextContinuationToken><CommonPrefixes><Prefix>p/</Prefix></CommonPrefixes></ListBucketResult>"

-- The nodes of the body below the root, in order.
abbrev nodes : List Node
nodes =
    (1, (codes "Name", codes "b"))
    ∷ (1, (codes "Contents", []))
    ∷ (2, (codes "Size", codes "3"))
    ∷ (2, (codes "Owner", []))
    ∷ (3, (codes "Key", codes "o"))
    ∷ (2, (codes "Key", codes "a&amp;b"))
    ∷ (2, (codes "LastModified", codes "d"))
    ∷ (2, (codes "ETag", codes "e"))
    ∷ (1, (codes "IsTruncated", codes "True"))
    ∷ (1, (codes "NextContinuationToken", codes "t"))
    ∷ (1, (codes "CommonPrefixes", []))
    ∷ (2, (codes "Prefix", codes "p/"))
    ∷ []

-- The next node with one of the names, where it stands below the parent.
abbrev below : Node → List Bytes → List Node → Result (Option Node × List Node) Bytes
below parent names [] = ok (none, [])
below parent names (node ∷ more) =
    let rest = below parent names more in
    if ltb parent.0 node.0
    then if named node.1.0 names then ok (some node, more) else rest
    else ok (none, node ∷ more)

-- A reader of this body, whose place is the nodes that are left.
abbrev xml : XmlReader (List Node) Node Bytes
xml = record {
  from_slice = λ text. if leb 12 (length text) then ok nodes else err [];
  find_the_open_node = λ r path. ok (some (0, (path, [])), r);
  read_next_tag = λ r. ok (none, r);
  find_any_of_these_nodes_inside_parent = λ r parent names. below parent names r;
  read_the_whole_node = λ r node. ok (node.1.1, r);
  start_pos = λ t. 0;
  end_pos = λ t. 0;
  level = λ t. t.0;
  name = λ t. t.1.0;
  raw = λ t. [];
  get_inner_content = λ n. some n;
  get_node_name = λ n. n;
}

below-further :
    (r : List Node) (parent : Node) (names : List Bytes) (found : Node) (after : List Node)
    → below parent names r ≡ ok (some found, after)
    → length after < length r
below-further [] parent names found after e = cc
below-further (node ∷ more) parent names found after e =
    ground (arith, e, below-further more parent names found after)

below-last :
    (r : List Node) (parent : Node) (names : List Bytes) (after : List Node)
    → below parent names r ≡ ok (none, after)
    → length after ≤ length r
below-last [] parent names after e = ground arith
below-last (node ∷ more) parent names after e =
    ground (arith, e, below-last more parent names after)

xml-Moves : Moves xml length
xml-Moves = record {
  slices = λ text r e. ground arith;
  opens = λ r name found after e. ground arith;
  finds = λ r parent names found after e. below-further r parent names found after e;
  stays = λ r parent names after e. below-last r parent names after e;
  reads = λ r node whole after e. ground arith;
}

abbrev info : S3ObjectInfo
info = record { key = codes "a&b"; size = 3; last_modified = codes "d"; etag = some (codes "e") }

abbrev entries : List Entry
entries = object info ∷ truncated true ∷ token (codes "t") ∷ folders (codes "p/") [] ∷ []

abbrev page : S3ListObjectsPage
page = record {
  common_prefixes = codes "p/" ∷ [];
  objects = info ∷ [];
  next_continuation_token = some (codes "t");
}

entries-Holds : Holds entries page
entries-Holds = record {
  objects = refl;
  folders = refl;
  resumes = inr (codes "t", refl, refl, refl);
}

abbrev fields : List Field
fields = size (codes "3") ∷ key (codes "a&b") ∷ last_modified (codes "d") ∷ etag (codes "e") ∷ []

fields-Describes : Describes fields info
unfolding trim parse_u64
fields-Describes = record {
  says_key = refl;
  size_text = codes "3";
  says_size = refl;
  is_count = refl;
  says_date = refl;
  says_etag = refl;
}

abbrev root : Node
root = (0, (codes "ListBucketResult", []))

-- The nodes that are left behind the first ones.
abbrev from : ℕ → List Node
from n = drop n nodes

abbrev contents : Node
contents = (1, (codes "Contents", []))

-- The node `n`, where the reader stops at it as the next child.
abbrev node : ℕ → Node
node n = head_of (from n)
  where
    head_of : List Node → Node
    head_of [] = root
    head_of (first ∷ more) = first

fields-Told : Told xml field_names (FieldAt xml) (from 2) contents fields (from 8)
unfolding is_self_closing escape escape_byte is_utf8 bytes_eq
fields-Told = (
  node 2,
  from 3,
  from 3,
  inr (refl, (0, ((λ names. refl), refl, refl))),
  (refl, (codes "3", refl, inl (refl, refl))),
  (
    node 5,
    from 6,
    from 6,
    inr (
      refl,
      (
        2,
        (
          node 3,
          from 4,
          (λ names. refl),
          inr refl,
          (node 4, from 5, (λ names. refl), inl (λ e. omega arith), ((λ names. refl), refl, refl)),
        ),
      ),
    ),
    (refl, (codes "a&amp;b", refl, inl (refl, refl))),
    (
      node 6,
      from 7,
      from 7,
      inr (refl, (0, ((λ names. refl), refl, refl))),
      (refl, (codes "d", refl, inl (refl, refl))),
      (
        node 7,
        from 8,
        from 8,
        inr (refl, (0, ((λ names. refl), refl, refl))),
        (refl, (codes "e", refl, inl (refl, refl))),
        inr (refl, (0, (λ names. refl))),
      ),
    ),
  ),
)

prefixes-Told : Told xml (codes "Prefix" ∷ []) (TextAt xml) (from 11) (node 10) (codes "p/" ∷ []) []
unfolding is_self_closing escape escape_byte is_utf8 bytes_eq
prefixes-Told = (
  node 11,
  [],
  [],
  inr (refl, (0, ((λ names. refl), refl, refl))),
  (codes "p/", refl, inl (refl, refl)),
  inr (refl, (0, (λ names. refl))),
)

entries-Told : Told xml entry_names (EntryAt xml) nodes root entries []
unfolding is_self_closing escape escape_byte is_utf8 bytes_eq eq_ignore_ascii_case trim
entries-Told = (
  contents,
  from 2,
  from 8,
  inr (refl, (1, (node 0, from 1, (λ names. refl), inr refl, ((λ names. refl), refl, refl)))),
  (refl, (fields, fields-Describes, fields-Told)),
  (
    node 8,
    from 9,
    from 9,
    inr (refl, (0, ((λ names. refl), refl, refl))),
    (refl, (codes "True", refl, (codes "True", refl, inl (refl, refl)))),
    (
      node 9,
      from 10,
      from 10,
      inr (refl, (0, ((λ names. refl), refl, refl))),
      (refl, (codes "t", refl, inl (refl, refl))),
      (
        node 10,
        from 11,
        [],
        inr (refl, (0, ((λ names. refl), refl, refl))),
        (refl, prefixes-Told),
        inr (refl, (0, (λ names. refl))),
      ),
    ),
  ),
)

parse_list_objects_v2-Holds_example : parse_list_objects_v2 {E = Error} xml body ≡ some (ok page)
unfolding is_safe_to_read
parse_list_objects_v2-Holds_example =
    parse_list_objects_v2-Holds Error xml length xml-Moves body nodes nodes [] root entries page
      refl refl refl entries-Told entries-Holds
