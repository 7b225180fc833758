-- ===== src/Xml/Documents/Cut.antt =====
-- A document that was cut short, as `is_safe_to_read` of src/xml.rs meets it.
use my_s.Base.{
  ℕ, suc, ◌-◌, ◌+◌, ◌<◌, ◌≡◌, ◌≢◌, inl, inr, refl, sym, ap, subst, ◌∙◌, Bool, true, false, ◌&&◌, [],
  ◌∷◌, ◌++◌, append-nil, Option, some, Bytes, length, length-append, ◌==◌, if-false, Lacks, is_utf8,
  arith,
}
use my_s.Xml.Safe.Kinds.{tag_of-opens, tag_of-both, tag_of-neither}
use my_s.Xml.Safe.{Tag, after_tag, scan_tags, balanced, is_safe_to_read}
use my_s.Xml.Documents.{
  Items, nothing, text, element, empty_element, declaration, tag, print, tags, IsWellFormed,
  scan_tags-text_pos, scan_tags-tag, scan_tags-print, tags-le, tag_of-slash,
}
use my_s.Xml.Documents.Unfinished.{
  append-split, scan_tags-end, scan_tags-started, scan_tags-within, tag-nil, length-tag,
  Lacks-append_left, past_tag,
}

after_close :
    (k : ℕ → Bytes → Option Bool) (depth : ℕ) (rest : Bytes)
    → after_tag k (depth + 1) Tag.closes rest ≡ k depth rest
unfolding after_tag
after_close k depth rest =
    let back : depth + 1 - 1 ≡ depth = omega arith in
    let open_ : (depth + 1 == 0) ≡ false = ground arith in
    if-false _ _ open_ ∙ ap (λ d. k d rest) back

-- A document that ends where something is still open is refused, wherever in the content it ends.
scan_tags-cut :
    (items : Items) (g depth : ℕ) (p q : Bytes)
    → IsWellFormed items
    → p ++ q ≡ print items
    → length p < g
    → 0 < depth
    → scan_tags g depth p ≡ some false
unfolding print after_tag
scan_tags-cut nothing g depth [] q w e fuel deep = scan_tags-end g depth fuel deep
scan_tags-cut nothing g depth (x ∷ p) q w e fuel deep = cc
scan_tags-cut (text t more) g depth p q (lacks, w) e fuel deep =
    elim (append-split p q t (print more) e) [
      | inl (p', f, h) ↦
          ap (scan_tags g depth) f
          ∙ scan_tags-text_pos g depth t p' (omega arith) lacks
          ∙ scan_tags-cut more g depth p' q w h (omega (arith, ap length f, length-append t p'))
              deep
      | inr (c, rest, f) ↦
          ap (scan_tags g depth) (sym (append-nil p))
          ∙ scan_tags-text_pos g depth p [] (omega arith)
              (Lacks-append_left b'<' p (c ∷ rest) (subst (Lacks b'<') f lacks))
          ∙ scan_tags-end g depth (omega arith) deep
    ]
scan_tags-cut (element name attributes inner more) g depth p q
      ((named, no_slash), lacks, lacks', wi, wm) e fuel deep =
    let opens = tag_of-opens name attributes named no_slash in
    let close = tag (b'/' ∷ name) (print more) in
    past_tag g depth p q (name ++ attributes) (print inner ++ close) Tag.opens lacks opens fuel deep
      e
      λ p' e' fuel'. elim (append-split p' q (print inner) close e') [
        | inr (c, rest, f) ↦
            scan_tags-cut inner (g - 1) (depth + 1) p' (c ∷ rest) wi (sym f) (omega arith)
              (omega arith)
        | inl (p'', f, h) ↦
            let g' = g - 1 - tags inner in
            let room : length p'' < g' =
              omega (arith, ap length f, length-append (print inner) p'', tags-le inner) in
            let split : g - 1 ≡ tags inner + suc (g' - 1) = omega arith in
            ap (scan_tags (g - 1) (depth + 1)) f
            ∙ ap (λ n. scan_tags n (depth + 1) (print inner ++ p'')) split
            ∙ scan_tags-print inner (g' - 1) (depth + 1) p'' wi
            ∙ past_tag (suc (g' - 1)) (depth + 1) p'' q (b'/' ∷ name) (print more) Tag.closes
                (omega arith, lacks') (tag_of-slash name) (omega arith) (omega arith) h
                λ rest3 e3 fuel3.
                  after_close (scan_tags (suc (g' - 1) - 1)) depth rest3
                  ∙ scan_tags-cut more (suc (g' - 1) - 1) depth rest3 q wm e3 (omega arith) deep
      ]
scan_tags-cut (empty_element name more) g depth p q (kind, lacks, w) e fuel deep =
    past_tag g depth p q (name ++ b'/' ∷ []) (print more) Tag.both lacks (tag_of-both name kind)
      fuel deep e λ p' e' fuel'. scan_tags-cut more (g - 1) depth p' q w e' (omega arith) deep
scan_tags-cut (declaration d more) g depth p q (kind, lacks, w) e fuel deep =
    past_tag g depth p q d (print more) Tag.neither lacks (tag_of-neither d kind) fuel deep e
      λ p' e' fuel'. scan_tags-cut more (g - 1) depth p' q w e' (omega arith) deep

-- A well-formed document that is one root element, none of whose tags, attributes and comments
-- included, has a `>` inside it, is refused when it is cut anywhere after its first byte and before its
-- end: a body that a dropped connection cut short is never read as a shorter one.
pub is_safe_to_read-cut :
    (name attributes : Bytes) (inner : Items) (p q : Bytes) (c : ℕ)
    → IsWellFormed (element name attributes inner nothing)
    → p ++ c ∷ q ≡ print (element name attributes inner nothing)
    → p ≢ []
    → is_safe_to_read p ≡ false
unfolding is_safe_to_read balanced print after_tag
is_safe_to_read-cut name attributes inner [] q c w e some_bytes = absurd (some_bytes refl)
is_safe_to_read-cut name attributes inner (x ∷ p) q c ((named, no_slash), lacks, lacks', wi, _) e
      some_bytes =
    rw refused (and_false (is_utf8 (x ∷ p)))
  where
    open_tag : Bytes
    open_tag = name ++ attributes

    close : Bytes
    close = tag (b'/' ∷ name) []

    g : ℕ
    g = length (x ∷ p)

    and_false : (b : Bool) → (b && false) ≡ false
    and_false true = refl
    and_false false = refl

    behind :
        (p' : Bytes)
        → x ∷ p ≡ tag open_tag p'
        → p' ++ c ∷ q ≡ print inner ++ close
        → scan_tags g 1 p' ≡ some false
    behind p' whole e' = elim (append-split p' (c ∷ q) (print inner) close e') [
      | inr (d, rest, f) ↦
          scan_tags-cut inner g 1 p' (d ∷ rest) wi (sym f)
            (omega (arith, ap length whole, length-tag open_tag p')) (omega arith)
      | inl (p'', f, h) ↦
          let spare = g - tags inner - 1 in
          let fuel : g ≡ tags inner + suc spare = omega (
            arith,
            ap length whole,
            ap length f,
            length-tag open_tag p',
            length-append (print inner) p'',
            tags-le inner,
          ) in
          ap (scan_tags g 1) f
          ∙ ap (λ n. scan_tags n 1 (print inner ++ p'')) fuel
          ∙ scan_tags-print inner spare 1 p'' wi
          ∙ scan_tags-within (suc spare) 1 p'' (b'/' ∷ name) c q (omega arith) (omega arith)
              (omega arith, lacks') (sym h)
    ]

    refused : scan_tags (suc g) 0 (x ∷ p) ≡ some false
    refused =
        elim (append-split (x ∷ p) (c ∷ q) (tag open_tag []) (print inner ++ close)
          (e ∙ sym (tag-nil open_tag _))) [
            | inr (d, more, f) ↦
                scan_tags-started (suc g) 0 x p open_tag d more (omega arith) lacks f
            | inl (p', f, h) ↦
                let whole : x ∷ p ≡ tag open_tag p' = f ∙ tag-nil open_tag p' in
                ap (scan_tags (suc g) 0) whole
                ∙ scan_tags-tag (suc g) g 0 open_tag p' refl lacks
                    (tag_of-opens name attributes named no_slash)
                ∙ behind p' whole h
          ]
