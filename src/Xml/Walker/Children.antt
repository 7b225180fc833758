-- ===== src/Xml/Walker/Children.antt =====
-- `next_direct_child` of src/xml.rs: it ends, and what it hands out is a child.
use my_s.Base.{
  ℕ, zero, suc, ◌+◌, ◌<◌, ◌≡◌, ap, ◌∙◌, List, Option, none, some, Bytes, ◌==◌, ==_iff, if-true,
  if-false, Bool-cases, Result, ok, err, Result-cases, inl, inr, arith,
}
use my_s.Xml.Walker.{XmlReader, next_direct_child, candidate}

-- The reader moves forward: `left` bounds what is still to be read, and finding a node lowers it.
pub record Advances {R T N : Type 0} (xml : XmlReader R T N) (left : R → ℕ) : Type 0 where
  pub finds :
      (reader : R) (parent : T) (names : List Bytes) (found : T) (after : R)
      → xml.find_any_of_these_nodes_inside_parent reader parent names ≡ ok (some found, after)
      → left after < left reader

-- What is found stands directly inside the parent.
abbrev pub IsChild : {R T N : Type 0} → XmlReader R T N → T → Result (Option T × R) Bytes → Type 0
IsChild xml parent (ok (some found, reader)) = xml.level found ≡ xml.level parent + 1
IsChild xml parent (ok (none, reader)) = Unit {0}
IsChild xml parent (err error) = Unit {0}

module _ {R T N : Type 0} (xml : XmlReader R T N) (left : R → ℕ) (moves : Advances xml left) where
  -- The loop comes to an end when the fuel is more than is left to read, and the node that it answers,
  -- if it answers one, is a child of the parent: no element of that name deeper down.
  pub next_direct_child-IsChild :
      (f : ℕ) (reader : R) (parent : T) (names : List Bytes)
      → left reader < f
      → (outcome : Result (Option T × R) Bytes) × (next_direct_child xml f reader parent names
          ≡ some outcome)
        × IsChild xml parent outcome
  unfolding next_direct_child candidate
  next_direct_child-IsChild zero reader parent names fuel = absurd (omega arith)
  next_direct_child-IsChild (suc f) reader parent names fuel =
      elim (Result-cases (xml.find_any_of_these_nodes_inside_parent reader parent names)) [
        | inr (error, e) ↦ (err error, ap (candidate xml _ parent) e, tt)
        | inl ((none, after), e) ↦ (ok (none, after), ap (candidate xml _ parent) e, tt)
        | inl ((some found, after), e) ↦
            elim (Bool-cases (xml.level found == xml.level parent + 1)) [
              | inl same ↦ (
                ok (some found, after),
                ap (candidate xml _ parent) e ∙ if-true _ _ same,
                (==_iff (xml.level found) (xml.level parent + 1)).0 same,
              )
              | inr deeper ↦
                  let (outcome, answer, child) =
                    next_direct_child-IsChild f after parent names
                      (omega (arith, moves.finds reader parent names found after e)) in
                  (outcome, ap (candidate xml _ parent) e ∙ if-false _ _ deeper ∙ answer, child)
            ]
      ]
