-- ===== src/Xml/Walker.antt =====
-- `read_node_text`, `XmlWalker`, `next_direct_child` and `is_self_closing` of src/xml.rs. The reader
-- below them is the crate `my_xml_reader`: it is the parameter `xml`, and the position it has come to
-- is passed on.
pub mod Children
pub mod NodeText
pub mod Forward
pub mod Told
use my_s.Base.{
  ℕ, zero, suc, ◌+◌, ◌-◌, Bool, false, ◌||◌, List, [], ◌∷◌, ◌++◌, Option, none, some, Bytes, codes,
  length, ltb, ◌==◌, take, drop, if◌then◌else◌, is_utf8, Result, ok, err,
}
use my_s.Xml.Safe.{is_safe_to_read}
use my_s.Xml.Entities.{unescape}

-- `MyXmlReader`, `XmlTagInfo` and `MyXmlNode`: a reader, a tag and a node that was read whole.
pub record XmlReader (R T N : Type 0) : Type 0 where
  pub from_slice : Bytes → Result R Bytes
  pub find_the_open_node : R → Bytes → Result (Option T × R) Bytes
  pub read_next_tag : R → Result (Option T × R) Bytes
  pub find_any_of_these_nodes_inside_parent : R → T → List Bytes → Result (Option T × R) Bytes
  pub read_the_whole_node : R → T → Result (N × R) Bytes
  pub start_pos : T → ℕ
  pub end_pos : T → ℕ
  pub level : T → ℕ
  pub name : T → Bytes
  pub raw : T → Bytes
  pub get_inner_content : N → Option Bytes
  pub get_node_name : N → Bytes

-- `std::str::from_utf8(..).ok().map(unescape)`.
unfoldable pub utf8_text : Bytes → Option Bytes
unfolding unescape
utf8_text content = if is_utf8 content then some (unescape content) else none

-- The text between the two tags, guarded against positions that make no slice.
unfoldable pub text_between : Bytes → ℕ → ℕ → Option Bytes
unfolding utf8_text
text_between body from to =
    if ltb to from || ltb (length body) to
    then some []
    else utf8_text (take (to - from) (drop from body))

-- `ends_with(b"/>")`.
unfoldable pub ends_with_close : Bytes → Bool
ends_with_close [] = false
ends_with_close (a ∷ []) = false
ends_with_close (a ∷ b ∷ []) = if a == b'/' then b == b'>' else false
ends_with_close (a ∷ b ∷ c ∷ s) = ends_with_close (b ∷ c ∷ s)

module _ {R T N : Type 0} (xml : XmlReader R T N) where
  after_open : Bytes → Result (Option T × R) Bytes → Option (T × R)
  after_open body (ok (some open_node, reader)) = some (open_node, reader)
  after_open body (ok (none, reader)) = none
  after_open body (err error) = none

  opened : Bytes → Bytes → Result R Bytes → Option (T × R)
  unfolding after_open
  opened body x_path (ok reader) = after_open body (xml.find_the_open_node reader x_path)
  opened body x_path (err error) = none

  closed_by : Bytes → T → Result (Option T × R) Bytes → Option Bytes
  unfolding text_between
  closed_by body open_node (ok (some close_node, reader)) =
      text_between body (xml.end_pos open_node + 1) (xml.start_pos close_node)
  closed_by body open_node (ok (none, reader)) = none
  closed_by body open_node (err error) = none

  between_tags : Bytes → Option (T × R) → Option Bytes
  unfolding closed_by
  between_tags body none = none
  between_tags body (some (open_node, reader)) = closed_by body open_node (xml.read_next_tag reader)

  unfoldable pub read_node_text : Bytes → Bytes → Option Bytes
  unfolding opened between_tags is_safe_to_read
  read_node_text body x_path =
      if is_safe_to_read body
      then between_tags body (opened body x_path (xml.from_slice body))
      else none

  unfoldable pub is_self_closing : T → Bool
  unfolding ends_with_close
  is_self_closing node = ends_with_close (xml.raw node)

  -- `XmlWalker`.
  pub record XmlWalker : Type 0 where
    pub reader : R
    pub root : T

  rooted : Result (Option T × R) Bytes → Result (Option XmlWalker) Bytes
  rooted (ok (some root, reader)) = ok (some (record { reader = reader; root = root }))
  rooted (ok (none, reader)) = ok none
  rooted (err error) = err error

  open_at : Bytes → Result R Bytes → Result (Option XmlWalker) Bytes
  unfolding rooted
  open_at root_name (ok reader) = rooted (xml.find_the_open_node reader root_name)
  open_at root_name (err error) = err error

  unfoldable pub open_walker : Bytes → Bytes → Result (Option XmlWalker) Bytes
  unfolding open_at is_safe_to_read
  open_walker body root_name =
      if is_safe_to_read body
      then open_at root_name (xml.from_slice body)
      else err (codes "body is not XML this reader can be driven over safely")

  -- One round of the loop: `k` is the rest of it.
  candidate :
      (R → Option (Result (Option T × R) Bytes))
      → T
      → Result (Option T × R) Bytes
      → Option (Result (Option T × R) Bytes)
  candidate k parent (err error) = some (err error)
  candidate k parent (ok (none, reader)) = some (ok (none, reader))
  candidate k parent (ok (some found, reader)) =
      let rest = k reader in
      if xml.level found == xml.level parent + 1 then some (ok (some found, reader)) else rest

  -- `none` means that the fuel ran out.
  unfoldable pub next_direct_child : ℕ → R → T → List Bytes → Option (Result (Option T × R) Bytes)
  unfolding candidate
  next_direct_child zero reader parent names = none
  next_direct_child (suc f) reader parent names =
      candidate (λ r. next_direct_child f r parent names) parent
        (xml.find_any_of_these_nodes_inside_parent reader parent names)

  -- `next_child_of`; `next_child` is the same for the root.
  unfoldable pub next_child_of : ℕ → R → T → List Bytes → Option (Result (Option T × R) Bytes)
  unfolding next_direct_child is_self_closing
  next_child_of f reader parent names =
      if is_self_closing parent
      then some (ok (none, reader))
      else next_direct_child f reader parent names

  pub not_utf8_text : N → Bytes
  not_utf8_text node =
      codes "<" ++ xml.get_node_name node ++ codes "> holds bytes that are not UTF-8"

  inner_text : N → R → Option Bytes → Result (Bytes × R) Bytes
  unfolding unescape
  inner_text node reader none = ok ([], reader)
  inner_text node reader (some content) =
      if is_utf8 content then ok (unescape content, reader) else err (not_utf8_text node)

  whole_node : Result (N × R) Bytes → Result (Bytes × R) Bytes
  unfolding inner_text
  whole_node (ok (node, reader)) = inner_text node reader (xml.get_inner_content node)
  whole_node (err error) = err error

  unfoldable pub read_text : R → T → Result (Bytes × R) Bytes
  unfolding whole_node
  read_text reader node = whole_node (xml.read_the_whole_node reader node)
