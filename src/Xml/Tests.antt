-- ===== src/Xml/Tests.antt =====
-- Documents of src/xml.rs at concrete inputs.
use my_s.Base.{
  inr, ℕ, zero, suc, ◌<◌, ◌≡◌, refl, Bool, true, false, [], ◌++◌, Option, none, some, Bytes, codes,
  Result, ok, arith, is_utf8, ◌∷◌, split_at, split_at-none,
}
use my_s.Xml.Safe.{is_safe_to_read, ends_in_slash, balanced}
use my_s.Xml.Safe.Kinds.{IsName, EndsIn-slash}
use my_s.Xml.Safe.Total.{balanced-total}
use my_s.Xml.Entities.{escape, escape_byte, unescape}
use my_s.Xml.Documents.{
  Items, element, empty_element, declaration, text, nothing, print, IsWellFormed,
  is_safe_to_read-print,
}
use my_s.Xml.Documents.Cut.{is_safe_to_read-cut}
use my_s.Xml.Entities.RoundTrip.{unescape-escape}
use my_s.Xml.Walker.{XmlReader, read_node_text}
use my_s.Xml.Walker.Children.{Advances}
use my_s.Xml.Walker.NodeText.{read_node_text-escape}

test_unescape :
    unescape (codes "a&amp;b&lt;c&gt;d&quot;e&apos;f&#38;&") ≡ codes "a&b<c>d\"e'f&#38;&"
unfolding unescape
test_unescape = refl

test_is_safe_to_read : is_safe_to_read (codes "<?xml version='1.0'?><a><b/>text</a>") ≡ true
unfolding is_safe_to_read
test_is_safe_to_read = refl

-- `<List xmlns="http://s3/"><!-- <b --><Key a="/" /><Key>t</Key></List>`.
abbrev attributes : Bytes
attributes = codes " xmlns=\"http://s3/\""

abbrev inner : Items
inner = declaration (codes "!-- <b --") (
    empty_element (codes "Key a=\"/\" ")
      (element (codes "Key") [] (text (codes "t") nothing) nothing))

abbrev document : Items
document = element (codes "List") attributes inner nothing

letter-IsName : (c : ℕ) (more : Bytes) → 64 < c → IsName (c ∷ more)
letter-IsName c more up =
    (c, more, refl, (λ e. omega arith), (λ e. omega arith), (λ e. omega arith))

document-IsWellFormed : IsWellFormed document
unfolding split_at ends_in_slash
document-IsWellFormed = (
  (
    letter-IsName b'L' (codes "ist") (omega arith),
    (λ slashed. absurd (open_ (EndsIn-slash (codes "List" ++ attributes) slashed))),
  ),
  split_at-none b'>' (codes "List" ++ attributes) refl,
  split_at-none b'>' (codes "List") refl,
  (
    (b'!', codes "-- <b --", refl, inr refl),
    split_at-none b'>' (codes "!-- <b --") refl,
    (
      letter-IsName b'K' (codes "ey a=\"/\" ") (omega arith),
      split_at-none b'>' (codes "Key a=\"/\" /") refl,
      (
        (
          letter-IsName b'K' (codes "ey") (omega arith),
          (λ slashed. absurd (open_ (EndsIn-slash (codes "Key") slashed))),
        ),
        split_at-none b'>' (codes "Key") refl,
        split_at-none b'>' (codes "Key") refl,
        (split_at-none b'<' (codes "t") refl, tt),
        tt,
      ),
    ),
  ),
  tt,
)
  where
    open_ : ◌≡◌ {A = Bool} false true → ⊥
    open_ e = cc

is_safe_to_read-print_example : is_safe_to_read (print document) ≡ true
unfolding print is_utf8
is_safe_to_read-print_example = is_safe_to_read-print document document-IsWellFormed refl

is_safe_to_read-cut_example :
    is_safe_to_read (codes "<List xmlns=\"http://s3/\"><!-- <b --><Key a=\"/\" /><Key>t</") ≡ false
unfolding print
is_safe_to_read-cut_example =
    is_safe_to_read-cut (codes "List") attributes inner
      (codes "<List xmlns=\"http://s3/\"><!-- <b --><Key a=\"/\" /><Key>t</") (codes "ey></List>")
      b'K' document-IsWellFormed refl (λ e. cc)

balanced-total_example : (b : Bool) × (balanced (codes "<a><b></a>") ≡ some b)
balanced-total_example = balanced-total (codes "<a><b></a>")

unescape-escape_example : unescape (escape (codes "Q1 & Q2 <draft>")) ≡ codes "Q1 & Q2 <draft>"
unescape-escape_example = unescape-escape (codes "Q1 & Q2 <draft>")

-- A tag by its level, its first and its last byte, and a reader of `<a>t</a>` that has one tag left to
-- find, then the next one.
abbrev Found : Type 0
Found = ℕ × ℕ × ℕ

abbrev one_node : ℕ → Result (Option Found × ℕ) Bytes
one_node zero = ok (none, 0)
one_node (suc n) = ok (some (n, 0, 2), n)

abbrev xml : XmlReader ℕ Found Bytes
xml = record {
  from_slice = λ body. ok 3;
  find_the_open_node = λ r path. one_node r;
  read_next_tag = λ r. ok (some (0, 4, 7), 0);
  find_any_of_these_nodes_inside_parent = λ r parent names. one_node r;
  read_the_whole_node = λ r node. ok ([], r);
  start_pos = λ t. t.1;
  end_pos = λ t. t.2;
  level = λ t. t.0;
  name = λ t. [];
  raw = λ t. [];
  get_inner_content = λ n. none;
  get_node_name = λ n. n;
}

one_node-lower :
    (r : ℕ) (found : Found) (after : ℕ) → one_node r ≡ ok (some found, after) → after < r
one_node-lower zero found after e = cc
one_node-lower (suc n) found after e = ground arith

xml-Advances : Advances xml (λ r. r)
xml-Advances = record { finds = λ r parent names found after e. one_node-lower r found after e }

read_node_text-escape_example :
    read_node_text xml (codes "<a>" ++ (escape (codes "t") ++ codes "</a>")) (codes "a")
    ≡ some (codes "t")
unfolding is_safe_to_read escape escape_byte
read_node_text-escape_example =
    read_node_text-escape xml (codes "a") (codes "<a>") (codes "t") (codes "</a>") 3 2 0 (2, 0, 2)
      (0, 4, 7) refl refl refl refl refl refl refl
