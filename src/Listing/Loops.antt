-- ===== src/Listing/Loops.antt =====
-- The loops of src/list_objects.rs over the children of a node. Each has its fuel as an argument;
-- `none` means that it ran out.
use my_s.Base.{
  ℕ, zero, suc, List, [], ◌∷◌, ◌++◌, Option, none, some, Bytes, codes, length, if◌then◌else◌,
  match_str, is_empty, from_utf8_lossy, Result, ok, err,
}
use my_s.Error.{S3Error, other_error}
use my_s.Xml.Walker.{XmlReader, XmlWalker, open_walker, next_child_of, read_text}
use my_s.Listing.{
  S3ObjectInfo, S3ListObjectsPage, page_elements, object_elements, Fields, no_fields, set_field,
  Page, empty_page, malformed, object_of, finish_page, set_truncated, set_token,
}

-- What a loop, or a part of one, comes to: its value and where the reader is.
abbrev pub Run : Type 0 → Type 0 → Type 0 → Type 0
Run E R A = Option (Result (A × R) (S3Error E))

module _ {E R : Type 0} where
  -- `?` on an error of the reader, and on one of the client.
  abbrev pub then_text :
      {A : Type 0} → Result (Bytes × R) Bytes → (Bytes → R → Run E R A) → Run E R A
  then_text (ok (value, reader)) k = k value reader
  then_text (err error) k = some (err (malformed error))

  abbrev pub then_run : {A B : Type 0} → Run E R A → (A → R → Run E R B) → Run E R B
  then_run none k = none
  then_run (some (err error)) k = some (err error)
  then_run (some (ok (a, reader))) k = k a reader

  abbrev pub then_result : {A B : Type 0} → Result A (S3Error E) → (A → Run E R B) → Run E R B
  then_result (ok a) k = k a
  then_result (err error) k = some (err error)

  -- `while let Some(node) = walker.next_child_of(..)?`: `stop` behind the last child.
  abbrev pub each_child :
      {A T : Type 0}
      → Option (Result (Option T × R) Bytes)
      → (R → Run E R A)
      → (T → R → Run E R A)
      → Run E R A
  each_child none stop k = none
  each_child (some (err error)) stop k = some (err (malformed error))
  each_child (some (ok (none, reader))) stop k = stop reader
  each_child (some (ok (some node, reader))) stop k = k node reader

module _ {E R T N : Type 0} (xml : XmlReader R T N) where
  unfoldable pub read_fields : ℕ → R → T → Fields → Run E R Fields
  unfolding next_child_of read_text set_field malformed
  read_fields zero reader contents fields = none
  read_fields (suc f) reader contents fields =
      each_child (next_child_of xml (suc f) reader contents object_elements)
        (λ r. some (ok (fields, r)))
        (λ field r.
          then_text (read_text xml r field)
            (λ value s. read_fields f s contents (set_field (xml.name field) value fields)))

  unfoldable pub read_object : ℕ → R → T → Run E R S3ObjectInfo
  unfolding read_fields object_of
  read_object f reader contents =
      then_run (read_fields f reader contents no_fields)
        (λ fields r. then_result (object_of fields) (λ object. some (ok (object, r))))

  unfoldable pub read_prefixes : ℕ → R → T → List Bytes → Run E R (List Bytes)
  unfolding next_child_of read_text malformed
  read_prefixes zero reader node found = none
  read_prefixes (suc f) reader node found =
      each_child (next_child_of xml (suc f) reader node (codes "Prefix" ∷ []))
        (λ r. some (ok (found, r)))
        (λ child r.
          then_text (read_text xml r child)
            (λ value s. read_prefixes f s node (found ++ value ∷ [])))

  -- The prefixes that are pushed: at least one.
  unfoldable pub read_common_prefixes : ℕ → R → T → Run E R (List Bytes)
  unfolding read_prefixes
  read_common_prefixes f reader node = then_run (read_prefixes f reader node []) (λ found r.
      if is_empty found
      then some
          (err (other_error (codes "ListObjectsV2 sent a <CommonPrefixes> with no <Prefix> in it")))
      else some (ok (found, r)))

  -- The `match` on the name of a child of the root.
  unfoldable pub read_element : ℕ → R → T → Page → Run E R Page
  unfolding match_str read_object read_common_prefixes read_text set_truncated set_token malformed
  read_element f reader node page =
      match_str (xml.name node)
        ((
          codes "Contents",
          then_run (read_object f reader node)
              (λ object r. some (ok (record page { objects = page.objects ++ object ∷ [] }, r))),
        )
          ∷ (
            codes "CommonPrefixes",
            then_run (read_common_prefixes f reader node) (λ found r.
                some (ok (record page { common_prefixes = page.common_prefixes ++ found }, r))),
          )
          ∷ (
            codes "IsTruncated",
            then_text (read_text xml reader node)
                (λ value r. some (ok (set_truncated value page, r))),
          )
          ∷ (
            codes "NextContinuationToken",
            then_text (read_text xml reader node) (λ value r. some (ok (set_token value page, r))),
          )
          ∷ [])
        (some (ok (page, reader)))

  unfoldable pub read_page : ℕ → R → T → Page → Run E R Page
  unfolding next_child_of read_element malformed
  read_page zero reader root page = none
  read_page (suc f) reader root page =
      each_child (next_child_of xml (suc f) reader root page_elements) (λ r. some (ok (page, r)))
        (λ node r. then_run (read_element (suc f) r node page) (λ next s. read_page f s root next))

  unfoldable pub finished : Run E R Page → Option (Result S3ListObjectsPage (S3Error E))
  unfolding finish_page
  finished none = none
  finished (some (err error)) = some (err error)
  finished (some (ok (page, reader))) = some (finish_page page)

  unfoldable pub listing :
      Bytes → Result (Option (XmlWalker xml)) Bytes → Option (Result S3ListObjectsPage (S3Error E))
  unfolding read_page finished from_utf8_lossy
  listing body (err error) = some (
      err (
        other_error (
          codes "ListObjectsV2 answered with a body that is not a ListBucketResult ("
          ++ error
          ++ codes "): "
          ++ from_utf8_lossy body)))
  listing body (ok none) = some (
      err (
        other_error (
          codes "ListObjectsV2 answered with a body that is not a ListBucketResult: "
          ++ from_utf8_lossy body)))
  listing body (ok (some walker)) =
      finished (read_page (suc (length body)) walker.reader walker.root empty_page)

  unfoldable pub parse_list_objects_v2 : Bytes → Option (Result S3ListObjectsPage (S3Error E))
  unfolding listing open_walker
  parse_list_objects_v2 body = listing body (open_walker xml body (codes "ListBucketResult"))
