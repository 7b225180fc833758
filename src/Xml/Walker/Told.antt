-- ===== src/Xml/Walker/Told.antt =====
-- What a document says, as the reader below the walker of src/xml.rs finds it: the children of a node,
-- one by one, and the texts in them.
use my_s.Base.{
  ℕ, zero, suc, ◌+◌, ◌<◌, ◌≤◌, ◌≡◌, ◌≢◌, ◌⊎◌, inl, inr, refl, ap, sym, ◌∙◌, true, false, List, [],
  ◌∷◌, Option, none, some, Bytes, is_utf8, ◌==◌, Bool, Bool-cases, bytes_eq, ◌||◌, if◌then◌else◌,
  if-true, if-false, ok, arith,
}
use my_s.Xml.Safe.{is_safe_to_read}
use my_s.Xml.Entities.{escape}
use my_s.Xml.Entities.RoundTrip.{unescape-escape}
use my_s.Xml.Walker.{
  XmlReader, open_walker, open_at, rooted, next_direct_child, candidate, next_child_of,
  is_self_closing, read_text, whole_node, inner_text,
}
use my_s.Xml.Walker.Forward.{Moves, read_text-forward}

-- Whether a name is one of the names.
abbrev pub named : Bytes → List Bytes → Bool
unfolding bytes_eq
named name [] = false
named name (wanted ∷ more) = bytes_eq name wanted || named name more

module _ {R T N : Type 0} (xml : XmlReader R T N) where
  -- The next node below `parent` is `node`: the reader stops at it when it is asked for its name, among
  -- others, and else looks on behind its opening tag.
  abbrev pub Offers : R → T → T → R → Type 0
  Offers reader parent node next =
      (names : List Bytes)
      → xml.find_any_of_these_nodes_inside_parent reader parent names ≡ (
          if named (xml.name node) names
          then ok (some node, next)
          else xml.find_any_of_these_nodes_inside_parent next parent names)

  -- There is no further node below `parent`, whatever is asked for.
  abbrev pub Ends : R → T → R → Type 0
  Ends reader parent after =
      (names : List Bytes)
      → xml.find_any_of_these_nodes_inside_parent reader parent names ≡ ok (none, after)

  abbrev AtEnd : R → T → List Bytes → Option T → R → Type 0
  AtEnd reader parent wanted none after = Ends reader parent after
  AtEnd reader parent wanted (some found) after =
      Offers reader parent found after
      × (named (xml.name found) wanted ≡ true)
      × (xml.level found ≡ xml.level parent + 1)

  -- The next child of `parent` with one of the names, or none, behind `others` nodes that are no such
  -- children: they are too deep, or have other names.
  abbrev Behind : ℕ → R → T → List Bytes → Option T → R → Type 0
  Behind zero reader parent wanted found after = AtEnd reader parent wanted found after
  Behind (suc others) reader parent wanted found after =
      (node : T) × (next : R) × Offers reader parent node next
      × ((xml.level node ≢ xml.level parent + 1) ⊎ (named (xml.name node) wanted ≡ false))
      × Behind others next parent wanted found after

  -- A node that closes itself has no children.
  abbrev pub Next : R → T → List Bytes → Option T → R → Type 0
  Next reader parent names found after =
      ((is_self_closing xml parent ≡ true) × (found ≡ none) × (after ≡ reader))
      ⊎ ((is_self_closing xml parent ≡ false)
          × ((others : ℕ) × Behind others reader parent names found after))

  -- The text of a node, as a server writes it: escaped, or no content at all where it is empty.
  abbrev pub TextAt : T → R → Bytes → R → Type 0
  TextAt node reader value after =
      (whole : N) × (xml.read_the_whole_node reader node ≡ ok (whole, after))
      × (((xml.get_inner_content whole ≡ some (escape value)) × (is_utf8 (escape value) ≡ true))
          ⊎ ((xml.get_inner_content whole ≡ none) × (value ≡ [])))

  -- The children of `parent` with one of the names, in order, each of which says an `A`.
  abbrev pub Told :
      {A : Type 0} → List Bytes → (T → R → A → R → Type 0) → R → T → List A → R → Type 0
  Told names Says reader parent [] after = Next reader parent names none after
  Told names Says reader parent (a ∷ more) after =
      (node : T) × (r : R) × (s : R) × Next reader parent names (some node) r
      × Says node r a s
      × Told names Says s parent more after

  pub open_walker-found :
      (body root_name : Bytes) (sliced reader : R) (root : T)
      → is_safe_to_read body ≡ true
      → xml.from_slice body ≡ ok sliced
      → xml.find_the_open_node sliced root_name ≡ ok (some root, reader)
      → open_walker xml body root_name ≡ ok (some (record { reader = reader; root = root }))
  unfolding open_walker open_at rooted
  open_walker-found body root_name sliced reader root safe slice found =
      rw safe (rw slice (rw found refl))

  pub read_text-TextAt :
      (node : T) (reader : R) (value : Bytes) (after : R)
      → TextAt node reader value after
      → read_text xml reader node ≡ ok (value, after)
  unfolding read_text whole_node inner_text
  read_text-TextAt node reader value after (whole, e, inl (content, utf8)) =
      ap (whole_node xml) e
      ∙ ap (inner_text xml whole after) content
      ∙ if-true _ _ utf8
      ∙ ap (λ v. ok (v, after)) (unescape-escape value)
  read_text-TextAt node reader value after (whole, e, inr (content, empty)) =
      ap (whole_node xml) e
      ∙ ap (inner_text xml whole after) content
      ∙ ap (λ v. ok (v, after)) (sym empty)

  same_level :
      (node parent : T)
      → xml.level node ≡ xml.level parent + 1
      → (xml.level node == xml.level parent + 1) ≡ true
  same_level node parent at = ground arith

  other_level :
      (node parent : T)
      → xml.level node ≢ xml.level parent + 1
      → (xml.level node == xml.level parent + 1) ≡ false
  other_level node parent too_deep = ground arith

  module _ (left : R → ℕ) (moves : Moves xml left) where
    -- How far the reader has come.
    abbrev pub Further : Option T → R → R → Type 0
    Further none reader after = left after ≤ left reader
    Further (some found) reader after = left after < left reader

    -- From wherever the reader would have found the same.
    next_direct_child-Behind :
        (others f : ℕ) (reader at : R) (parent : T) (names : List Bytes) (found : Option T)
        (after : R)
        → left reader < f
        → xml.find_any_of_these_nodes_inside_parent reader parent names
          ≡ xml.find_any_of_these_nodes_inside_parent at parent names
        → Behind others at parent names found after
        → (next_direct_child xml f reader parent names ≡ some (ok (found, after)))
          × Further found reader after
    unfolding next_direct_child candidate
    next_direct_child-Behind others zero reader at parent names found after fuel here told =
        absurd (omega arith)
    next_direct_child-Behind zero (suc f) reader at parent names none after fuel here ends =
        let e = here ∙ ends names in
        (ap (candidate xml _ parent) e, moves.stays reader parent names after e)
    next_direct_child-Behind zero (suc f) reader at parent names (some node) after fuel here
          (offers, wanted, level) =
        let e = here ∙ offers names ∙ if-true _ _ wanted in
        (
          ap (candidate xml _ parent) e ∙ if-true _ _ (same_level node parent level),
          moves.finds reader parent names node after e,
        )
    next_direct_child-Behind (suc others) (suc f) reader at parent names found after fuel here
          (node, next, offers, passed, told) =
        elim (Bool-cases (named (xml.name node) names)) [
          | inr other ↦
              next_direct_child-Behind others (suc f) reader next parent names found after fuel
                (here ∙ offers names ∙ if-false _ _ other) told
          | inl wanted ↦
              let e = here ∙ offers names ∙ if-true _ _ wanted in
              let further = moves.finds reader parent names node next e in
              let (rest, on) =
                next_direct_child-Behind others f next next parent names found after
                  (omega (arith, further)) refl told in
              (
                ap (candidate xml _ parent) e
                    ∙ if-false _ _ (other_level node parent (too_deep wanted passed))
                    ∙ rest,
                from found reader next after on further,
              )
        ]
      where
        too_deep :
            named (xml.name node) names ≡ true
            → (xml.level node ≢ xml.level parent + 1) ⊎ (named (xml.name node) names ≡ false)
            → xml.level node ≢ xml.level parent + 1
        too_deep wanted (inl deep) = deep
        too_deep wanted (inr other) = absurd cc

        from :
            (found : Option T) (reader next after : R)
            → Further found next after
            → left next < left reader
            → Further found reader after
        from none reader next after on further = omega arith
        from (some node) reader next after on further = omega arith

    pub next_child_of-Next :
        (f : ℕ) (reader : R) (parent : T) (names : List Bytes) (found : Option T) (after : R)
        → left reader < f
        → Next reader parent names found after
        → (next_child_of xml f reader parent names ≡ some (ok (found, after)))
          × Further found reader after
    unfolding next_child_of
    next_child_of-Next f reader parent names none after fuel (inl (closing, nothing, same)) = (
      if-true _ _ closing ∙ ap (λ r. some (ok (none, r))) (sym same),
      omega (arith, ap left same),
    )
    next_child_of-Next f reader parent names (some node) after fuel (inl (closing, nothing, same)) =
        cc
    next_child_of-Next f reader parent names found after fuel (inr (opened, (others, told))) =
        let (answer, further) =
          next_direct_child-Behind others f reader reader parent names found after fuel refl told in
        (if-false _ _ opened ∙ answer, further)

    -- A text does not move the reader back.
    pub TextAt-forward :
        (node : T) (reader : R) (value : Bytes) (after : R)
        → TextAt node reader value after
        → left after ≤ left reader
    TextAt-forward node reader value after told =
        read_text-forward xml left moves reader node value after
          (read_text-TextAt node reader value after told)
