-- ===== src/Listing.antt =====
-- src/list_objects.rs: one page of a listing: its data, its fields, and what becomes of its token.
pub mod Loops
pub mod Settles
pub mod Pages
pub mod Contents
pub mod Entries
pub mod Readback
mod Tests
mod PageTests
use my_s.Base.{
  ℕ, Bool, true, false, ◌&&◌, List, [], ◌∷◌, ◌++◌, Option, none, some, Bytes, codes, leb, ◌+◌,
  if◌then◌else◌, match_str, bytes_eq, is_empty, trim, parse_u64, Result, ok, err, ◌>>=◌,
}
use my_s.Error.{S3Error, other_error}

pub record S3ObjectInfo : Type 0 where
  pub key : Bytes
  pub size : ℕ
  pub last_modified : Bytes
  pub etag : Option Bytes

pub record S3ListObjectsPage : Type 0 where
  pub common_prefixes : List Bytes
  pub objects : List S3ObjectInfo
  pub next_continuation_token : Option Bytes

abbrev page_elements : List Bytes
page_elements =
    codes "Contents"
    ∷ codes "CommonPrefixes"
    ∷ codes "IsTruncated"
    ∷ codes "NextContinuationToken"
    ∷ []

abbrev object_elements : List Bytes
object_elements = codes "Key" ∷ codes "Size" ∷ codes "LastModified" ∷ codes "ETag" ∷ []

-- The variables of `read_object`.
pub record Fields : Type 0 where
  pub key : Option Bytes
  pub size : Option Bytes
  pub last_modified : Option Bytes
  pub etag : Option Bytes

abbrev no_fields : Fields
no_fields = record { key = none; size = none; last_modified = none; etag = none }

unfoldable pub set_field : Bytes → Bytes → Fields → Fields
unfolding match_str
set_field name value fields =
    match_str name
      ((codes "Key", record fields { key = some value })
        ∷ (codes "Size", record fields { size = some value })
        ∷ (codes "LastModified", record fields { last_modified = some value })
        ∷ (codes "ETag", record fields { etag = some value })
        ∷ [])
      fields

-- The variables of `parse_list_objects_v2`.
pub record Page : Type 0 where
  pub common_prefixes : List Bytes
  pub objects : List S3ObjectInfo
  pub is_truncated : Bool
  pub next_continuation_token : Option Bytes

abbrev empty_page : Page
empty_page = record {
  common_prefixes = [];
  objects = [];
  is_truncated = false;
  next_continuation_token = none;
}

lower : ℕ → ℕ
lower c = if leb b'A' c && leb c b'Z' then c + 32 else c

-- `eq_ignore_ascii_case`.
unfoldable pub eq_ignore_ascii_case : Bytes → Bytes → Bool
unfolding lower bytes_eq
eq_ignore_ascii_case [] [] = true
eq_ignore_ascii_case [] (d ∷ t) = false
eq_ignore_ascii_case (c ∷ s) [] = false
eq_ignore_ascii_case (c ∷ s) (d ∷ t) =
    let rest = eq_ignore_ascii_case s t in
    if leb (lower c) (lower d) && leb (lower d) (lower c) then rest else false

module _ {E : Type 0} where
  pub malformed : Bytes → S3Error E
  malformed error = other_error (codes "ListObjectsV2 answered with malformed XML: " ++ error)

  unfoldable pub required : Option Bytes → Bytes → Result Bytes (S3Error E)
  required (some value) element = ok value
  required none element = err (
      other_error (codes "ListObjectsV2 sent a <Contents> with no <" ++ element ++ codes "> in it"))

  byte_count : Bytes → Bytes → Option ℕ → Result ℕ (S3Error E)
  byte_count size key (some n) = ok n
  byte_count size key none = err (
      other_error (
        codes "ListObjectsV2 gave <Size>"
        ++ size
        ++ codes "</Size> for key "
        ++ key
        ++ codes ", which is not a byte count"))

  -- The end of `read_object`: the fields that an object needs.
  unfoldable pub object_of : Fields → Result S3ObjectInfo (S3Error E)
  unfolding required byte_count
  object_of fields = required fields.key (codes "Key") >>= λ key.
      required fields.last_modified (codes "LastModified") >>= λ last_modified.
      required fields.size (codes "Size") >>= λ size.
      byte_count size key (parse_u64 (trim size)) >>= λ count.
      ok (record { key = key; size = count; last_modified = last_modified; etag = fields.etag })

  -- The page, where the listing is truncated and where it is not.
  unfoldable pub page_of :
      List Bytes → List S3ObjectInfo → Bool → Option Bytes → Result S3ListObjectsPage (S3Error E)
  page_of common_prefixes objects false token = ok (record {
    common_prefixes = common_prefixes;
    objects = objects;
    next_continuation_token = none;
  })
  page_of common_prefixes objects true none = err (
      other_error
        (codes "ListObjectsV2 reported a truncated listing but sent no NextContinuationToken"))
  page_of common_prefixes objects true (some token) = ok (record {
    common_prefixes = common_prefixes;
    objects = objects;
    next_continuation_token = some token;
  })

  -- The end of `parse_list_objects_v2`.
  unfoldable pub finish_page : Page → Result S3ListObjectsPage (S3Error E)
  unfolding page_of
  finish_page page =
      page_of page.common_prefixes page.objects page.is_truncated page.next_continuation_token

unfoldable pub set_truncated : Bytes → Page → Page
unfolding eq_ignore_ascii_case
set_truncated value page = record page {
  is_truncated = eq_ignore_ascii_case (trim value) (codes "true");
}

-- An empty token is none.
unfoldable pub set_token : Bytes → Page → Page
set_token value page =
    if is_empty value then page else record page { next_continuation_token = some value }
