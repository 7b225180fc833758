-- ===== src/Xml/Walker/Forward.antt =====
-- The walker of src/xml.rs over a reader that only moves forward.
use my_s.Base.{
  ℕ, zero, suc, ◌+◌, ◌<◌, ◌≤◌, ◌≡◌, sym, ap, ◌∙◌, List, Option, none, some, Bytes, length, ◌==◌,
  if-true, if-false, Bool-cases, Result, ok, err, Result-cases, inl, inr, arith,
}
use my_s.Xml.Safe.{is_safe_to_read}
use my_s.Xml.Walker.{
  XmlReader, XmlWalker, open_walker, next_direct_child, candidate, next_child_of, is_self_closing,
  read_text, whole_node, inner_text, open_at, rooted,
}

-- The reader moves forward: `left` bounds what is still to be read.
pub record Moves {R T N : Type 0} (xml : XmlReader R T N) (left : R → ℕ) : Type 0 where
  pub slices :
      (body : Bytes) (reader : R) → xml.from_slice body ≡ ok reader → left reader ≤ length body
  pub opens :
      (reader : R) (name : Bytes) (found : Option T) (after : R)
      → xml.find_the_open_node reader name ≡ ok (found, after)
      → left after ≤ left reader
  pub finds :
      (reader : R) (parent : T) (names : List Bytes) (found : T) (after : R)
      → xml.find_any_of_these_nodes_inside_parent reader parent names ≡ ok (some found, after)
      → left after < left reader
  pub stays :
      (reader : R) (parent : T) (names : List Bytes) (after : R)
      → xml.find_any_of_these_nodes_inside_parent reader parent names ≡ ok (none, after)
      → left after ≤ left reader
  pub reads :
      (reader : R) (node : T) (whole : N) (after : R)
      → xml.read_the_whole_node reader node ≡ ok (whole, after)
      → left after ≤ left reader

-- A child was found further on, or the reader is not further back.
abbrev pub ChildWithin : {R T : Type 0} → (R → ℕ) → ℕ → Result (Option T × R) Bytes → Type 0
ChildWithin left n (ok (some found, reader)) = left reader < n
ChildWithin left n (ok (none, reader)) = left reader ≤ n
ChildWithin left n (err error) = Unit {0}

module _ {R T N : Type 0} (xml : XmlReader R T N) (left : R → ℕ) (moves : Moves xml left) where
  direct_child-ends :
      (f n : ℕ) (reader : R) (parent : T) (names : List Bytes)
      → left reader < f
      → left reader ≤ n
      → (outcome : Result (Option T × R) Bytes) × (next_direct_child xml f reader parent names
          ≡ some outcome)
        × ChildWithin left n outcome
  unfolding next_direct_child candidate
  direct_child-ends zero n reader parent names fuel le = absurd (omega arith)
  direct_child-ends (suc f) n reader parent names fuel le =
      elim (Result-cases (xml.find_any_of_these_nodes_inside_parent reader parent names)) [
        | inr (error, e) ↦ (err error, ap (candidate xml _ parent) e, tt)
        | inl ((none, after), e) ↦ (
          ok (none, after),
          ap (candidate xml _ parent) e,
          omega (arith, moves.stays reader parent names after e),
        )
        | inl ((some found, after), e) ↦
            let further = moves.finds reader parent names found after e in
            elim (Bool-cases (xml.level found == xml.level parent + 1)) [
              | inl same ↦ (
                ok (some found, after),
                ap (candidate xml _ parent) e ∙ if-true _ _ same,
                omega (arith, further),
              )
              | inr deeper ↦
                  let (outcome, answer, within) =
                    direct_child-ends f n after parent names (omega (arith, further))
                      (omega (arith, further)) in
                  (outcome, ap (candidate xml _ parent) e ∙ if-false _ _ deeper ∙ answer, within)
            ]
      ]

  pub next_child_of-ends :
      (f : ℕ) (reader : R) (parent : T) (names : List Bytes)
      → left reader < f
      → (outcome : Result (Option T × R) Bytes) × (next_child_of xml f reader parent names
          ≡ some outcome)
        × ChildWithin left (left reader) outcome
  unfolding next_child_of
  next_child_of-ends f reader parent names fuel = elim (Bool-cases (is_self_closing xml parent)) [
    | inl e ↦ (ok (none, reader), if-true _ _ e, omega arith)
    | inr e ↦
        let (outcome, answer, within) =
          direct_child-ends f (left reader) reader parent names fuel (omega arith) in
        (outcome, if-false _ _ e ∙ answer, within)
  ]

  inner_text-place :
      (node : N) (reader after : R) (content : Option Bytes) (value : Bytes)
      → inner_text xml node reader content ≡ ok (value, after)
      → reader ≡ after
  unfolding inner_text
  inner_text-place node reader after none value e = cc
  inner_text-place node reader after (some content) value e = ground arith

  pub read_text-forward :
      (reader : R) (node : T) (value : Bytes) (after : R)
      → read_text xml reader node ≡ ok (value, after)
      → left after ≤ left reader
  unfolding read_text whole_node
  read_text-forward reader node value after e =
      elim (Result-cases (xml.read_the_whole_node reader node)) [
        | inr (error, f) ↦ absurd (failed error (sym (ap (whole_node xml) f) ∙ e))
        | inl ((whole, r), f) ↦
            let same =
              inner_text-place whole r after (xml.get_inner_content whole) value
                (sym (ap (whole_node xml) f) ∙ e) in
            omega (arith, moves.reads reader node whole r f, ap left same)
      ]
    where
      failed :
          (error : Bytes) → ◌≡◌ {A = Result (Bytes × R) Bytes} (err error) (ok (value, after)) → ⊥
      failed error h = cc

  rooted-place :
      (found : Result (Option T × R) Bytes) (w : XmlWalker xml)
      → rooted xml found ≡ ok (some w)
      → (root : T) × (found ≡ ok (some root, w.reader))
  unfolding rooted
  rooted-place (ok (some root, reader)) w e = (root, cc)
  rooted-place (ok (none, reader)) w e = cc
  rooted-place (err error) w e = cc

  pub open_walker-forward :
      (body root_name : Bytes) (w : XmlWalker xml)
      → open_walker xml body root_name ≡ ok (some w)
      → left w.reader ≤ length body
  unfolding open_walker open_at
  open_walker-forward body root_name w e = elim (Bool-cases (is_safe_to_read body)) [
    | inr unsafe ↦ absurd (refused _ (sym (if-false _ _ unsafe) ∙ e))
    | inl safe ↦ elim (Result-cases (xml.from_slice body)) [
      | inr (error, f) ↦
          absurd (refused error (sym (if-true _ _ safe ∙ ap (open_at xml root_name) f) ∙ e))
      | inl (reader, f) ↦
          let (root, found) =
            rooted-place (xml.find_the_open_node reader root_name) w
              (sym (if-true _ _ safe ∙ ap (open_at xml root_name) f) ∙ e) in
          omega (
            arith,
            moves.slices body reader f,
            moves.opens reader root_name (some root) w.reader found,
          )
    ]
  ]
    where
      refused :
          (error : Bytes)
          → ◌≡◌ {A = Result (Option (XmlWalker xml)) Bytes} (err error) (ok (some w))
          → ⊥
      refused error h = cc
