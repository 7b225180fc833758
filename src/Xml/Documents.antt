-- ===== src/Xml/Documents.antt =====
-- The documents that `is_safe_to_read` of src/xml.rs lets through, as trees.
pub mod Unfinished
pub mod Cut
use Prim.Native.Nat.add
use my_s.Base.{
  ℕ, zero, suc, ◌-◌, ◌+◌, ◌<◌, ◌≤◌, ◌≡◌, refl, sym, ap, ◌∙◌, Bool, true, false, [], ◌∷◌, ◌++◌,
  append_assoc, append-nil, Option, none, some, Bytes, length, length-append, ◌==◌, if-false,
  split_at, split_at-append, split_at-cons, put_in_front, Lacks, is_utf8, arith,
}
use my_s.Xml.Safe.Kinds.{IsName, EndsIn, IsDeclaration, tag_of-opens, tag_of-both, tag_of-neither}
use my_s.Xml.Safe.{Tag, tag_of, after_tag, tag_end, next_tag, scan_tags, balanced, is_safe_to_read}

-- A document, as what stands side by side at one level, and what follows it.
pub data Items : Type 0 where
  nothing : Items
  text : Bytes → Items → Items
  -- `<name attributes> … </name>`.
  element : Bytes → Bytes → Items → Items → Items
  -- `<name/>`, with its attributes, without its slash.
  empty_element : Bytes → Items → Items
  -- `<? … ?>` or `<! … >`.
  declaration : Bytes → Items → Items

abbrev pub tag : Bytes → Bytes → Bytes
tag inner rest = b'<' ∷ (inner ++ b'>' ∷ rest)

unfoldable pub print : Items → Bytes
print nothing = []
print (text t more) = t ++ print more
print (element name attributes inner more) =
    tag (name ++ attributes) (print inner ++ tag (b'/' ∷ name) (print more))
print (empty_element name more) = tag (name ++ b'/' ∷ []) (print more)
print (declaration d more) = tag d (print more)

unfoldable pub tags : Items → ℕ
tags nothing = 0
tags (text t more) = tags more
tags (element name attributes inner more) = suc (tags inner + suc (tags more))
tags (empty_element name more) = suc (tags more)
tags (declaration d more) = suc (tags more)

-- The rules of such a document: text has no `<`, a tag has no `>` inside it, also none in the value of
-- an attribute or in a comment, a name begins with none of `?`, `!` and `/`, an opening tag does not
-- end in a slash, and a declaration begins with `?` or `!`.
abbrev pub IsWellFormed : Items → Type 0
IsWellFormed nothing = Unit {0}
IsWellFormed (text t more) = Lacks b'<' t × IsWellFormed more
IsWellFormed (element name attributes inner more) =
    (IsName name × (EndsIn b'/' (name ++ attributes) → ⊥))
    × Lacks b'>' (name ++ attributes)
    × Lacks b'>' name
    × IsWellFormed inner
    × IsWellFormed more
IsWellFormed (empty_element name more) =
    IsName name × Lacks b'>' (name ++ b'/' ∷ []) × IsWellFormed more
IsWellFormed (declaration d more) = IsDeclaration d × Lacks b'>' d × IsWellFormed more

next_tag-put_in_front :
    (k : ℕ → Bytes → Option Bool) (depth c : ℕ) (found : Option (Bytes × Bytes))
    → next_tag k depth (put_in_front c found) ≡ next_tag k depth found
unfolding next_tag put_in_front
next_tag-put_in_front k depth c none = refl
next_tag-put_in_front k depth c (some (before, after)) = refl

scan_tags-cons :
    (f depth c : ℕ) (s : Bytes)
    → (c ≡ b'<' → ⊥)
    → scan_tags (suc f) depth (c ∷ s) ≡ scan_tags (suc f) depth s
unfolding scan_tags
scan_tags-cons f depth c s ne =
    ap (next_tag (scan_tags f) depth) (split_at-cons b'<' c s ne)
    ∙ next_tag-put_in_front (scan_tags f) depth c (split_at b'<' s)

-- Text is passed over.
pub scan_tags-text :
    (f depth : ℕ) (t rest : Bytes)
    → Lacks b'<' t
    → scan_tags (suc f) depth (t ++ rest) ≡ scan_tags (suc f) depth rest
scan_tags-text f depth [] rest h = refl
scan_tags-text f depth (c ∷ t) rest (ne, h) =
    scan_tags-cons f depth c (t ++ rest) ne ∙ scan_tags-text f depth t rest h

pub scan_tags-text_pos :
    (g depth : ℕ) (t rest : Bytes)
    → 0 < g
    → Lacks b'<' t
    → scan_tags g depth (t ++ rest) ≡ scan_tags g depth rest
scan_tags-text_pos zero depth t rest pos h = absurd (omega arith)
scan_tags-text_pos (suc f) depth t rest pos h = scan_tags-text f depth t rest h

-- A whole tag is read in one round.
pub scan_tags-tag :
    (g f depth : ℕ) (inner rest : Bytes) {kind : Tag}
    → g ≡ suc f
    → Lacks b'>' inner
    → tag_of inner ≡ kind
    → scan_tags g depth (tag inner rest) ≡ after_tag (scan_tags f) depth kind rest
unfolding scan_tags next_tag tag_end
scan_tags-tag g f depth inner rest fuel h kind =
    ap (λ n. scan_tags n depth (tag inner rest)) fuel
    ∙ ap (next_tag (scan_tags f) depth) (split_at-append b'<' [] (inner ++ b'>' ∷ rest) tt)
    ∙ ap (tag_end (scan_tags f) depth) (split_at-append b'>' inner rest h)
    ∙ ap (λ t. after_tag (scan_tags f) depth t rest) kind

pub tag_of-slash : (name : Bytes) → tag_of (b'/' ∷ name) ≡ Tag.closes
unfolding tag_of
tag_of-slash name = refl

-- A closing tag takes the depth back.
pub scan_tags-close :
    (g f depth : ℕ) (name rest : Bytes)
    → g ≡ suc f
    → Lacks b'>' name
    → scan_tags g (depth + 1) (tag (b'/' ∷ name) rest) ≡ scan_tags f depth rest
unfolding after_tag
scan_tags-close g f depth name rest fuel h =
    let back : depth + 1 - 1 ≡ depth = omega arith in
    let open_ : (depth + 1 == 0) ≡ false = ground arith in
    scan_tags-tag g f (depth + 1) (b'/' ∷ name) rest fuel (omega arith, h) (tag_of-slash name)
    ∙ if-false _ _ open_
    ∙ ap (λ d. scan_tags f d rest) back

pub tag-append : (inner rest more : Bytes) → tag inner rest ++ more ≡ tag inner (rest ++ more)
tag-append inner rest more = ap (◌∷◌ b'<') (append_assoc inner (b'>' ∷ rest) more)

-- The tags of a well-formed document leave the depth as it was.
pub scan_tags-print :
    (items : Items) (f depth : ℕ) (rest : Bytes)
    → IsWellFormed items
    → scan_tags (tags items + suc f) depth (print items ++ rest) ≡ scan_tags (suc f) depth rest
unfolding print tags after_tag
scan_tags-print nothing f depth rest w = rw add.zero
scan_tags-print (text t more) f depth rest (lacks, w) =
    ap (scan_tags (tags more + suc f) depth) (append_assoc t (print more) rest)
    ∙ scan_tags-text_pos (tags more + suc f) depth t (print more ++ rest) (omega arith) lacks
    ∙ scan_tags-print more f depth rest w
scan_tags-print (element name attributes inner more) f depth rest
      ((named, no_slash), lacks, lacks', wi, wm) =
    let close = tag (b'/' ∷ name) (print more ++ rest) in
    let g = tags more + suc f in
    ap (scan_tags _ depth) (
      tag-append (name ++ attributes) _ rest
      ∙ ap (tag (name ++ attributes)) (
          append_assoc (print inner) _ rest
          ∙ ap (◌++◌ (print inner)) (tag-append (b'/' ∷ name) (print more) rest)))
    ∙ scan_tags-tag _ (tags inner + suc g) depth (name ++ attributes) (print inner ++ close)
        (omega arith) lacks (tag_of-opens name attributes named no_slash)
    ∙ scan_tags-print inner g (depth + 1) close wi
    ∙ scan_tags-close (suc g) g depth name (print more ++ rest) refl lacks'
    ∙ scan_tags-print more f depth rest wm
scan_tags-print (empty_element name more) f depth rest (kind, lacks, w) =
    ap (scan_tags _ depth) (tag-append (name ++ b'/' ∷ []) (print more) rest)
    ∙ scan_tags-tag _ (tags more + suc f) depth (name ++ b'/' ∷ []) (print more ++ rest)
        (omega arith) lacks (tag_of-both name kind)
    ∙ scan_tags-print more f depth rest w
scan_tags-print (declaration d more) f depth rest (kind, lacks, w) =
    ap (scan_tags _ depth) (tag-append d (print more) rest)
    ∙ scan_tags-tag _ (tags more + suc f) depth d (print more ++ rest) (omega arith) lacks
        (tag_of-neither d kind)
    ∙ scan_tags-print more f depth rest w

-- No more tags than bytes.
pub tags-le : (items : Items) → tags items ≤ length (print items)
unfolding print tags
tags-le nothing = omega arith
tags-le (text t more) = omega (arith, tags-le more, length-append t (print more))
tags-le (element name attributes inner more) = omega (
  arith,
  tags-le inner,
  tags-le more,
  length-append (name ++ attributes) (b'>' ∷ (print inner ++ tag (b'/' ∷ name) (print more))),
  length-append (print inner) (tag (b'/' ∷ name) (print more)),
  length-append name (b'>' ∷ print more),
)
tags-le (empty_element name more) =
    omega (arith, tags-le more, length-append (name ++ b'/' ∷ []) (b'>' ∷ print more))
tags-le (declaration d more) = omega (arith, tags-le more, length-append d (b'>' ∷ print more))

-- Every document in UTF-8 that is well-formed, none of whose tags, attributes and comments included,
-- has a `>` inside it, is let through.
pub is_safe_to_read-print :
    (items : Items)
    → IsWellFormed items
    → is_utf8 (print items) ≡ true
    → is_safe_to_read (print items) ≡ true
unfolding is_safe_to_read balanced scan_tags
is_safe_to_read-print items w utf8 = rw (utf8, all)
  where
    all : balanced (print items) ≡ some true
    all =
        let spare = length (print items) - tags items in
        let fuel : suc (length (print items)) ≡ tags items + suc spare =
          omega (arith, tags-le items) in
        ap (λ g. scan_tags g 0 (print items)) fuel
        ∙ ap (scan_tags (tags items + suc spare) 0) (sym (append-nil (print items)))
        ∙ scan_tags-print items spare 0 [] w
