-- ===== src/Listing/Contents.antt =====
-- What a `ListBucketResult` says, for src/list_objects.rs: the entries of a page, in whatever order the
-- server writes them.
use my_s.Base.{
  ◌≡◌, ◌⊎◌, Bool, true, false, List, [], ◌∷◌, ◌++◌, Option, none, some, Bytes, codes, trim,
  parse_u64,
}
use my_s.Xml.Walker.{XmlReader}
use my_s.Xml.Walker.Told.{TextAt, Told}
use my_s.Listing.{S3ObjectInfo, S3ListObjectsPage, eq_ignore_ascii_case}

-- A field of a `<Contents>`, with its text.
pub data Field : Type 0 where
  key : Bytes → Field
  size : Bytes → Field
  last_modified : Bytes → Field
  etag : Bytes → Field

abbrev pub element_of : Field → Bytes
element_of (key value) = codes "Key"
element_of (size value) = codes "Size"
element_of (last_modified value) = codes "LastModified"
element_of (etag value) = codes "ETag"

abbrev pub text_of : Field → Bytes
text_of (key value) = value
text_of (size value) = value
text_of (last_modified value) = value
text_of (etag value) = value

-- The elements that say what an object is, and those that say what a page is; others are passed over.
abbrev pub field_names : List Bytes
field_names = codes "Key" ∷ codes "Size" ∷ codes "LastModified" ∷ codes "ETag" ∷ []

abbrev pub entry_names : List Bytes
entry_names =
    codes "Contents"
    ∷ codes "CommonPrefixes"
    ∷ codes "IsTruncated"
    ∷ codes "NextContinuationToken"
    ∷ []

-- The last of the texts that stand for a field, `first` where there is none.
abbrev pub last_key : List Field → Option Bytes → Option Bytes
last_key [] first = first
last_key (key value ∷ fields) first = last_key fields (some value)
last_key (size value ∷ fields) first = last_key fields first
last_key (last_modified value ∷ fields) first = last_key fields first
last_key (etag value ∷ fields) first = last_key fields first

abbrev pub last_size : List Field → Option Bytes → Option Bytes
last_size [] first = first
last_size (key value ∷ fields) first = last_size fields first
last_size (size value ∷ fields) first = last_size fields (some value)
last_size (last_modified value ∷ fields) first = last_size fields first
last_size (etag value ∷ fields) first = last_size fields first

abbrev pub last_date : List Field → Option Bytes → Option Bytes
last_date [] first = first
last_date (key value ∷ fields) first = last_date fields first
last_date (size value ∷ fields) first = last_date fields first
last_date (last_modified value ∷ fields) first = last_date fields (some value)
last_date (etag value ∷ fields) first = last_date fields first

abbrev pub last_etag : List Field → Option Bytes → Option Bytes
last_etag [] first = first
last_etag (key value ∷ fields) first = last_etag fields first
last_etag (size value ∷ fields) first = last_etag fields first
last_etag (last_modified value ∷ fields) first = last_etag fields first
last_etag (etag value ∷ fields) first = last_etag fields (some value)

-- The fields, in whatever order, are those of an object.
pub record Describes (fields : List Field) (object : S3ObjectInfo) : Type 0 where
  pub says_key : last_key fields none ≡ some object.key
  pub size_text : Bytes
  pub says_size : last_size fields none ≡ some size_text
  pub is_count : parse_u64 (trim size_text) ≡ some object.size
  pub says_date : last_date fields none ≡ some object.last_modified
  pub says_etag : last_etag fields none ≡ object.etag

-- An entry of a page.
pub data Entry : Type 0 where
  object : S3ObjectInfo → Entry
  folders : Bytes → List Bytes → Entry
  truncated : Bool → Entry
  token : Bytes → Entry

abbrev pub objects_of : List Entry → List S3ObjectInfo
objects_of [] = []
objects_of (object info ∷ entries) = info ∷ objects_of entries
objects_of (folders first more ∷ entries) = objects_of entries
objects_of (truncated says ∷ entries) = objects_of entries
objects_of (token value ∷ entries) = objects_of entries

abbrev pub folders_of : List Entry → List Bytes
folders_of [] = []
folders_of (object info ∷ entries) = folders_of entries
folders_of (folders first more ∷ entries) = (first ∷ more) ++ folders_of entries
folders_of (truncated says ∷ entries) = folders_of entries
folders_of (token value ∷ entries) = folders_of entries

abbrev pub truncated_of : List Entry → Bool → Bool
truncated_of [] before = before
truncated_of (object info ∷ entries) before = truncated_of entries before
truncated_of (folders first more ∷ entries) before = truncated_of entries before
truncated_of (truncated says ∷ entries) before = truncated_of entries says
truncated_of (token value ∷ entries) before = truncated_of entries before

-- The last token that is not empty.
abbrev pub token_of : List Entry → Option Bytes → Option Bytes
token_of [] before = before
token_of (object info ∷ entries) before = token_of entries before
token_of (folders first more ∷ entries) before = token_of entries before
token_of (truncated says ∷ entries) before = token_of entries before
token_of (token [] ∷ entries) before = token_of entries before
token_of (token (c ∷ value) ∷ entries) before = token_of entries (some (c ∷ value))

-- The entries, in whatever order, are those of a page: it is truncated exactly where it has a token.
pub record Holds (entries : List Entry) (page : S3ListObjectsPage) : Type 0 where
  pub objects : objects_of entries ≡ page.objects
  pub folders : folders_of entries ≡ page.common_prefixes
  pub resumes :
      ((truncated_of entries false ≡ false) × (page.next_continuation_token ≡ none))
      ⊎ ((token : Bytes) × (truncated_of entries false ≡ true)
          × (token_of entries none ≡ some token)
          × (page.next_continuation_token ≡ some token))

module _ {R T N : Type 0} (xml : XmlReader R T N) where
  -- A node that the reader has found is a field with its text.
  abbrev pub FieldAt : T → R → Field → R → Type 0
  FieldAt node reader field after =
      (xml.name node ≡ element_of field) × TextAt xml node reader (text_of field) after

  -- A node that the reader has found is an entry, with all that is in it.
  abbrev pub EntryAt : T → R → Entry → R → Type 0
  EntryAt node reader (object info) after =
      (xml.name node ≡ codes "Contents")
      × ((fields : List Field) × Describes fields info
          × Told xml field_names FieldAt reader node fields after)
  EntryAt node reader (folders first more) after =
      (xml.name node ≡ codes "CommonPrefixes")
      × Told xml (codes "Prefix" ∷ []) (TextAt xml) reader node (first ∷ more) after
  EntryAt node reader (truncated says) after =
      (xml.name node ≡ codes "IsTruncated")
      × ((value : Bytes) × (eq_ignore_ascii_case (trim value) (codes "true") ≡ says)
          × TextAt xml node reader value after)
  EntryAt node reader (token value) after =
      (xml.name node ≡ codes "NextContinuationToken") × TextAt xml node reader value after
