-- ===== src/Xml/Safe.antt =====
-- `is_safe_to_read` of src/xml.rs: whether the tags of a document are balanced.
pub mod Total
pub mod Kinds
use my_s.Base.{
  ℕ, zero, suc, ◌-◌, ◌+◌, ◌<◌, Bool, false, ◌||◌, ◌&&◌, [], ◌∷◌, Option, none, some, Bytes, length,
  ◌==◌, if◌then◌else◌, split_at, is_utf8, arith,
}

-- The bytes of a tag between `<` and `>`: what they do to the nesting depth.
pub data Tag : Type 0 where
  -- A declaration, a doctype or a comment.
  neither : Tag
  closes : Tag
  opens : Tag
  -- `<Node/>`.
  both : Tag

-- Whether the byte in front of the `>` is a slash; in `<>` it is the `<`.
unfoldable pub ends_in_slash : Bytes → Bool
ends_in_slash [] = false
ends_in_slash (c ∷ []) = c == b'/'
ends_in_slash (c ∷ d ∷ s) = ends_in_slash (d ∷ s)

unfoldable pub tag_of : Bytes → Tag
unfolding ends_in_slash
tag_of [] = opens
tag_of (c ∷ s) =
    if c == b'?' || c == b'!'
    then neither
    else if c == b'/'
    then closes
    else if ends_in_slash (c ∷ s)
    then both
    else opens

-- The body of the loop, behind a tag: `k` is the rest of the loop.
unfoldable pub after_tag : (ℕ → Bytes → Option Bool) → ℕ → Tag → Bytes → Option Bool
after_tag k depth Tag.neither rest = k depth rest
after_tag k depth Tag.closes rest = if depth == 0 then some false else k (depth - 1) rest
after_tag k depth Tag.opens rest = k (depth + 1) rest
after_tag k depth Tag.both rest = k depth rest

-- A tag that never ends is a body that was cut in the middle of one.
unfoldable pub tag_end : (ℕ → Bytes → Option Bool) → ℕ → Option (Bytes × Bytes) → Option Bool
unfolding after_tag tag_of
tag_end k depth none = some false
tag_end k depth (some (tag, rest)) = after_tag k depth (tag_of tag) rest

-- Where there is no further tag, everything that was opened has to be closed.
unfoldable pub next_tag : (ℕ → Bytes → Option Bool) → ℕ → Option (Bytes × Bytes) → Option Bool
unfolding tag_end split_at
next_tag k depth none = some (depth == 0)
next_tag k depth (some (text, tail)) = tag_end k depth (split_at b'>' tail)

-- The loop over the tags, from nesting depth `depth` on. `none` means that the fuel ran out.
unfoldable pub scan_tags : ℕ → ℕ → Bytes → Option Bool
unfolding next_tag split_at
scan_tags zero depth body = none
scan_tags (suc f) depth body = next_tag (scan_tags f) depth (split_at b'<' body)

-- One round for each byte is more than enough.
unfoldable pub balanced : Bytes → Option Bool
unfolding scan_tags
balanced body = scan_tags (suc (length body)) 0 body

unfoldable pub answered : Option Bool → Bool
answered (some b) = b
answered none = false

unfoldable pub is_safe_to_read : Bytes → Bool
unfolding balanced answered is_utf8
is_safe_to_read body = is_utf8 body && answered (balanced body)
