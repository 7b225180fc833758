-- ===== src/Listing/Readback.antt =====
-- src/list_objects.rs: a page is read back from what a `ListBucketResult` says.
use my_s.Base.{
  ℕ, zero, suc, ◌<◌, ◌≤◌, ◌≡◌, inl, inr, refl, ap, sym, ◌∙◌, true, List, [], ◌∷◌, ◌++◌,
  append_assoc, append-nil, none, some, Bytes, codes, length, ok, arith,
}
use my_s.Xml.Safe.{is_safe_to_read}
use my_s.Xml.Walker.{XmlReader}
use my_s.Xml.Walker.Forward.{Moves}
use my_s.Xml.Walker.Told.{
  open_walker-found, Told, read_text-TextAt, next_child_of-Next, TextAt-forward,
}
use my_s.Listing.{
  S3ListObjectsPage, page_elements, Page, empty_page, page_of, finish_page, set_truncated,
  set_token,
}
use my_s.Listing.Loops.{
  read_common_prefixes, read_element, read_page, finished, listing, parse_list_objects_v2,
}
use my_s.Listing.Contents.{
  Entry, object, folders, truncated, token, objects_of, folders_of, truncated_of, token_of, Holds,
  EntryAt, entry_names,
}
use my_s.Listing.Entries.{read_object-Told, read_prefixes-Told}

module _ (E : Type 0) {R T N : Type 0} (xml : XmlReader R T N) (left : R → ℕ)
    (moves : Moves xml left) where
  -- The page behind all of these entries, and behind one.
  abbrev with_entries : List Entry → Page → Page
  with_entries entries page = record {
    common_prefixes = page.common_prefixes ++ folders_of entries;
    objects = page.objects ++ objects_of entries;
    is_truncated = truncated_of entries page.is_truncated;
    next_continuation_token = token_of entries page.next_continuation_token;
  }

  abbrev with_entry : Entry → Page → Page
  with_entry (object info) page = record page { objects = page.objects ++ info ∷ [] }
  with_entry (folders first more) page = record page {
    common_prefixes = page.common_prefixes ++ (first ∷ more);
  }
  with_entry (truncated says) page = record page { is_truncated = says }
  with_entry (token []) page = page
  with_entry (token (c ∷ value)) page = record page { next_continuation_token = some (c ∷ value) }

  with_entry-stays :
      (entry : Entry) (entries : List Entry) (page : Page)
      → with_entries entries (with_entry entry page) ≡ with_entries (entry ∷ entries) page
  with_entry-stays (object info) entries page =
      ap (λ os. record (with_entries entries page) { objects = os })
        (append_assoc page.objects (info ∷ []) (objects_of entries))
  with_entry-stays (folders first more) entries page =
      ap (λ ps. record (with_entries entries page) { common_prefixes = ps })
        (append_assoc page.common_prefixes (first ∷ more) (folders_of entries))
  with_entry-stays (truncated says) entries page = refl
  with_entry-stays (token []) entries page = refl
  with_entry-stays (token (c ∷ value)) entries page = refl

  read_element-EntryAt :
      (entry : Entry) (f : ℕ) (reader : R) (node : T) (page : Page) (after : R)
      → left reader < f
      → EntryAt xml node reader entry after
      → (read_element {E = E} xml f reader node page ≡ some (ok (with_entry entry page, after)))
        × (left after ≤ left reader)
  unfolding read_element read_common_prefixes set_truncated set_token
  read_element-EntryAt (object info) f reader node page after fuel (named, (fields, d, told)) =
      let (e, back) =
        read_object-Told E xml left moves fields info f reader node after fuel d told in
      (rw named (rw e refl), back)
  read_element-EntryAt (folders first more) f reader node page after fuel (named, told) =
      let (e, back) =
        read_prefixes-Told E xml left moves (first ∷ more) f reader node [] after fuel told in
      (rw named (rw e refl), back)
  read_element-EntryAt (truncated says) f reader node page after fuel
        (named, (value, reads, text)) =
      (
        rw named (
            rw (read_text-TextAt xml node reader value after text)
              (ap (λ b. some (ok (record page { is_truncated = b }, after))) reads)),
        TextAt-forward xml left moves node reader value after text,
      )
  read_element-EntryAt (token []) f reader node page after fuel (named, text) = (
    rw named (rw (read_text-TextAt xml node reader [] after text) refl),
    TextAt-forward xml left moves node reader [] after text,
  )
  read_element-EntryAt (token (c ∷ value)) f reader node page after fuel (named, text) = (
    rw named (rw (read_text-TextAt xml node reader (c ∷ value) after text) refl),
    TextAt-forward xml left moves node reader (c ∷ value) after text,
  )

  read_page-Told :
      (entries : List Entry) (f : ℕ) (reader : R) (root : T) (page : Page) (after : R)
      → left reader < f
      → Told xml entry_names (EntryAt xml) reader root entries after
      → read_page {E = E} xml f reader root page ≡ some (ok (with_entries entries page, after))
  unfolding read_page
  read_page-Told entries zero reader root page after fuel told = absurd (omega arith)
  read_page-Told [] (suc f) reader root page after fuel told =
      let (e, further) =
        next_child_of-Next xml left moves (suc f) reader root page_elements none after fuel told in
      rw e (
        ap (λ ps. some (ok (record page { common_prefixes = ps; objects = page.objects }, after)))
          (sym (append-nil page.common_prefixes))
        ∙ ap (λ os. some (ok (record (with_entries [] page) { objects = os }, after)))
            (sym (append-nil page.objects)))
  read_page-Told (entry ∷ entries) (suc f) reader root page after fuel
        (node, r, s, next, said, told) =
      let (e, further) =
        next_child_of-Next xml left moves (suc f) reader root page_elements (some node) r fuel
          next in
      let (element, back) =
        read_element-EntryAt entry (suc f) r node page s (omega (arith, further)) said in
      rw e (
        rw element (
          read_page-Told entries f s root (with_entry entry page) after
            (omega (arith, further, back)) told
          ∙ ap (λ p. some (ok (p, after))) (with_entry-stays entry entries page)))

  finish_page-Holds :
      (entries : List Entry) (page : S3ListObjectsPage)
      → Holds entries page
      → finish_page {E = E} (with_entries entries empty_page) ≡ ok page
  unfolding finish_page page_of
  finish_page-Holds entries page h = elim h.resumes [
    | inl (last, none_left) ↦ rw last (rw h.objects (rw h.folders (rw (sym none_left) refl)))
    | inr (t, more, says, next) ↦
        rw more (rw says (rw h.objects (rw h.folders (rw (sym next) refl))))
  ]

  -- Every page comes back: where a body that is safe to read is found to be a `ListBucketResult` that
  -- says the entries of a page, in whatever order, with other elements among them and nodes of the same
  -- names deeper down, the fields of an object in whatever order, and every text escaped and in UTF-8,
  -- parse_list_objects_v2 answers exactly that page. The reader is assumed to move forward, and to stop
  -- at the next node that has one of the names it is asked for.
  pub parse_list_objects_v2-Holds :
      (body : Bytes) (sliced reader after : R) (root : T) (entries : List Entry)
      (page : S3ListObjectsPage)
      → is_safe_to_read body ≡ true
      → xml.from_slice body ≡ ok sliced
      → xml.find_the_open_node sliced (codes "ListBucketResult") ≡ ok (some root, reader)
      → Told xml entry_names (EntryAt xml) reader root entries after
      → Holds entries page
      → parse_list_objects_v2 {E = E} xml body ≡ some (ok page)
  unfolding parse_list_objects_v2 listing finished
  parse_list_objects_v2-Holds body sliced reader after root entries page safe slice found told
        holds =
      rw (open_walker-found xml body (codes "ListBucketResult") sliced reader root safe slice found)
        (rw (read_page-Told entries (suc (length body)) reader root empty_page after fuel told)
          (ap some (finish_page-Holds entries page holds)))
    where
      fuel : left reader < suc (length body)
      fuel = omega (
        arith,
        moves.slices body sliced slice,
        moves.opens sliced (codes "ListBucketResult") (some root) reader found,
      )
