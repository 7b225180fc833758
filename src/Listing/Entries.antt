-- ===== src/Listing/Entries.antt =====
-- src/list_objects.rs: an object and its fields, and the prefixes, are read as they are written.
use my_s.Base.{
  ℕ, zero, suc, ◌<◌, ◌≤◌, ◌≡◌, refl, ap, sym, ◌∙◌, List, [], ◌∷◌, ◌++◌, append_assoc, append-nil,
  none, some, Bytes, codes, ok, arith,
}
use my_s.Xml.Walker.{XmlReader}
use my_s.Xml.Walker.Forward.{Moves}
use my_s.Xml.Walker.Told.{TextAt, Told, read_text-TextAt, next_child_of-Next, TextAt-forward}
use my_s.Listing.{
  S3ObjectInfo, object_elements, Fields, no_fields, set_field, required, byte_count, object_of,
}
use my_s.Listing.Loops.{read_fields, read_object, read_prefixes}
use my_s.Listing.Contents.{
  Field, key, size, last_modified, etag, last_key, last_size, last_date, last_etag, Describes,
  field_names, FieldAt, element_of, text_of,
}

-- The variables of `read_object` behind these fields.
abbrev with_fields : List Field → Fields → Fields
with_fields fields before = record {
  key = last_key fields before.key;
  size = last_size fields before.size;
  last_modified = last_date fields before.last_modified;
  etag = last_etag fields before.etag;
}

set_field-stays :
    (field : Field) (fields : List Field) (before : Fields)
    → with_fields fields (set_field (element_of field) (text_of field) before)
      ≡ with_fields (field ∷ fields) before
unfolding set_field
set_field-stays (key value) fields before = refl
set_field-stays (size value) fields before = refl
set_field-stays (last_modified value) fields before = refl
set_field-stays (etag value) fields before = refl

module _ (E : Type 0) {R T N : Type 0} (xml : XmlReader R T N) (left : R → ℕ)
    (moves : Moves xml left) where
  read_fields-Told :
      (fields : List Field) (f : ℕ) (reader : R) (parent : T) (before : Fields) (after : R)
      → left reader < f
      → Told xml field_names (FieldAt xml) reader parent fields after
      → (read_fields {E = E} xml f reader parent before
          ≡ some (ok (with_fields fields before, after)))
        × (left after ≤ left reader)
  unfolding read_fields
  read_fields-Told fields zero reader parent before after fuel told = absurd (omega arith)
  read_fields-Told [] (suc f) reader parent before after fuel told =
      let (e, further) =
        next_child_of-Next xml left moves (suc f) reader parent object_elements none after fuel
          told in
      (rw e refl, further)
  read_fields-Told (field ∷ fields) (suc f) reader parent before after fuel
        (node, r, s, next, (named, text), told) =
      let (e, further) =
        next_child_of-Next xml left moves (suc f) reader parent object_elements (some node) r fuel
          next in
      let on = TextAt-forward xml left moves node r (text_of field) s text in
      let (rest, back) =
        read_fields-Told fields f s parent (set_field (element_of field) (text_of field) before)
          after (omega (arith, further, on)) told in
      (
        rw e (
            rw (read_text-TextAt xml node r (text_of field) s text) (
              rw named
                (rest ∙ ap (λ x. some (ok (x, after))) (set_field-stays field fields before)))),
        omega (arith, further, on, back),
      )

  object_of-Describes :
      (fields : List Field) (info : S3ObjectInfo)
      → Describes fields info
      → object_of {E = E} (with_fields fields no_fields) ≡ ok info
  unfolding object_of required byte_count
  object_of-Describes fields info d =
      rw d.says_key (rw d.says_date (rw d.says_size (rw d.is_count (rw d.says_etag refl))))

  pub read_object-Told :
      (fields : List Field) (info : S3ObjectInfo) (f : ℕ) (reader : R) (node : T) (after : R)
      → left reader < f
      → Describes fields info
      → Told xml field_names (FieldAt xml) reader node fields after
      → (read_object {E = E} xml f reader node ≡ some (ok (info, after)))
        × (left after ≤ left reader)
  unfolding read_object
  read_object-Told fields info f reader node after fuel d told =
      let (e, back) = read_fields-Told fields f reader node no_fields after fuel told in
      (rw e (rw (object_of-Describes fields info d) refl), back)

  pub read_prefixes-Told :
      (prefixes : List Bytes) (f : ℕ) (reader : R) (node : T) (found : List Bytes) (after : R)
      → left reader < f
      → Told xml (codes "Prefix" ∷ []) (TextAt xml) reader node prefixes after
      → (read_prefixes {E = E} xml f reader node found ≡ some (ok (found ++ prefixes, after)))
        × (left after ≤ left reader)
  unfolding read_prefixes
  read_prefixes-Told prefixes zero reader node found after fuel told = absurd (omega arith)
  read_prefixes-Told [] (suc f) reader node found after fuel told =
      let (e, further) =
        next_child_of-Next xml left moves (suc f) reader node (codes "Prefix" ∷ []) none after fuel
          told in
      (rw e (ap (λ x. some (ok (x, after))) (sym (append-nil found))), further)
  read_prefixes-Told (prefix ∷ prefixes) (suc f) reader node found after fuel
        (child, r, s, next, text, told) =
      let (e, further) =
        next_child_of-Next xml left moves (suc f) reader node (codes "Prefix" ∷ []) (some child) r
          fuel next in
      let on = TextAt-forward xml left moves child r prefix s text in
      let (rest, back) =
        read_prefixes-Told prefixes f s node (found ++ prefix ∷ []) after
          (omega (arith, further, on)) told in
      (
        rw e (
            rw (read_text-TextAt xml child r prefix s text)
              (rest ∙ ap (λ x. some (ok (x, after))) (append_assoc found (prefix ∷ []) prefixes))),
        omega (arith, further, on, back),
      )
