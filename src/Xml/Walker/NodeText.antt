-- ===== src/Xml/Walker/NodeText.antt =====
-- `read_node_text` of src/xml.rs: the text that a server escaped is the text that is read.
use my_s.Base.{
  ℕ, ◌+◌, ◌≤◌, ◌≡◌, refl, ap, ◌∙◌, true, false, ◌||◌, [], ◌∷◌, ◌++◌, some, Bytes, length,
  length-append, take, drop, ltb, is_utf8, if-true, if-false, ok, arith,
}
use my_s.Xml.Safe.{is_safe_to_read}
use my_s.Xml.Entities.{escape}
use my_s.Xml.Entities.RoundTrip.{unescape-escape}
use my_s.Xml.Walker.{
  XmlReader, read_node_text, text_between, utf8_text, opened, after_open, between_tags, closed_by,
}

drop-length : (s t : Bytes) → drop (length s) (s ++ t) ≡ t
drop-length [] t = refl
drop-length (c ∷ s) t = drop-length s t

take-length : (s t : Bytes) → take (length s) (s ++ t) ≡ s
take-length [] t = refl
take-length (c ∷ s) t = ap (c ∷◌) (take-length s t)

-- The guard lets positions inside the body through.
within :
    (body : Bytes) (from to : ℕ)
    → from ≤ to
    → to ≤ length body
    → (ltb to from || ltb (length body) to) ≡ false
within body from to le fits = ground arith

utf8_text-escape :
    (text : Bytes) → is_utf8 (escape text) ≡ true → utf8_text (escape text) ≡ some text
unfolding utf8_text
utf8_text-escape text utf8 = if-true _ _ utf8 ∙ ap some (unescape-escape text)

text_between-escape :
    (before text after : Bytes)
    → is_utf8 (escape text) ≡ true
    → text_between
        (before ++ (escape text ++ after))
        (length before)
        (length before + length (escape text))
      ≡ some text
unfolding text_between
text_between-escape before text after utf8 =
    let body = before ++ (escape text ++ after) in
    let from = length before in
    let size = length (escape text) in
    if-false _ _ (
      within body from (from + size) (omega arith) (
        omega
          (arith, length-append before (escape text ++ after), length-append (escape text) after)))
    ∙ ap (λ n. utf8_text (take n (drop from body))) (omega arith)
    ∙ ap (λ rest. utf8_text (take size rest)) (drop-length before (escape text ++ after))
    ∙ ap utf8_text (take-length (escape text) after)
    ∙ utf8_text-escape text utf8

module _ {R T N : Type 0} (xml : XmlReader R T N) where
  -- A text that the server escaped, wherever it stands in a document that is safe to read, is read back
  -- as it was, when the reader finds the tags that it stands between.
  pub read_node_text-escape :
      (x_path before text after : Bytes) (reader0 reader1 reader2 : R) (open_node close_node : T)
      → is_safe_to_read (before ++ (escape text ++ after)) ≡ true
      → is_utf8 (escape text) ≡ true
      → xml.from_slice (before ++ (escape text ++ after)) ≡ ok reader0
      → xml.find_the_open_node reader0 x_path ≡ ok (some open_node, reader1)
      → xml.read_next_tag reader1 ≡ ok (some close_node, reader2)
      → xml.end_pos open_node + 1 ≡ length before
      → xml.start_pos close_node ≡ length before + length (escape text)
      → read_node_text xml (before ++ (escape text ++ after)) x_path ≡ some text
  unfolding read_node_text opened after_open between_tags closed_by
  read_node_text-escape x_path before text after reader0 reader1 reader2 open_node close_node safe
        utf8 slice found closed from to =
      let body = before ++ (escape text ++ after) in
      if-true _ _ safe
      ∙ ap (λ sliced. between_tags xml body (opened xml body x_path sliced)) slice
      ∙ ap (λ f. between_tags xml body (after_open xml body f)) found
      ∙ ap (closed_by xml body open_node) closed
      ∙ ap (λ n. text_between body n (xml.start_pos close_node)) from
      ∙ ap (text_between body (length before)) to
      ∙ text_between-escape before text after utf8
