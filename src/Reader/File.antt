-- ===== src/Reader/File.antt =====
-- `S3Reader` of src/reader.rs against a file: reads give the bytes at the position.
pub mod OnePoll
use my_s.Base.{
  ℕ, ◌+◌, ◌-◌, ◌≤◌, ◌<◌, ◌≡◌, ◌≢◌, ◌⊎◌, refl, ap, ◌∙◌, min, true, false, [], ◌∷◌, ◌++◌,
  append_assoc, Option, none, some, Bytes, length, length-take, length-drop, take, drop,
  take-append-drop, drop-add, drop-append_le, is_empty, Result, ok, err, Poll, ready, waiting,
  add_u64, add_u64-exact, sub_u64, sub_u64-exact, u64_mod, arith,
}
use my_s.Error.{S3Error}
use my_s.Reader.{S3Reader, PendingRead, Read, start_read}

-- `out` is what the object holds at `position`.
abbrev pub At : Bytes → ℕ → Bytes → Type 0
At object position out = drop position object ≡ out ++ drop (position + length out) object

pub record IsPending (object : Bytes) (position : ℕ) (p : PendingRead) : Type 0 where
  pub from : p.start ≡ position
  pub some_bytes : 0 < p.requested
  pub inside : position + p.requested ≤ length object
  pub to : p.last + 1 ≡ position + p.requested

-- A reader of `object` between two calls.
pub record IsOpen (object : Bytes) (r : S3Reader) : Type 0 where
  pub whole : r.size ≡ length object
  pub fits : length object < u64_mod
  pub offset : r.position < u64_mod
  pub left : At object r.position r.leftover
  pub left_inside : (r.leftover ≡ []) ⊎ (r.position + length r.leftover ≤ length object)
  pub flight :
      (r.pending ≡ none)
      ⊎ ((p : PendingRead) × (r.pending ≡ some p)
          × IsPending object r.position p
          × (r.leftover ≡ []))

-- What is relied on of the storage and the transport: a body as long as the range that was asked for
-- holds the bytes of that range. Errors, short and long bodies are all allowed.
abbrev pub Honest : {E : Type 0} → Bytes → PendingRead → Poll (Result Bytes (S3Error E)) → Type 0
Honest object p (ready (ok body)) = length body ≡ p.requested → At object p.start body
Honest object p (ready (err error)) = Unit {0}
Honest object p waiting = Unit {0}

length-take_le : (k : ℕ) (xs : Bytes) → k ≤ length xs → length (take k xs) ≡ k
length-take_le k xs h = omega (arith, length-take k xs)

-- A part of what stands at a position stands there, and the rest behind it.
pub At-take :
    (object : Bytes) (position k : ℕ) (out : Bytes)
    → k ≤ length out
    → At object position out
    → At object position (take k out)
At-take object position k out le h = rw (
  length-take_le k out le,
  drop-add position k object,
  h,
  drop-append_le k out _ le,
  ← append_assoc (take k out) (drop k out) (drop (position + length out) object),
  take-append-drop,
)

At-drop :
    (object : Bytes) (position k : ℕ) (out : Bytes)
    → k ≤ length out
    → At object position out
    → At object (position + k) (drop k out)
At-drop object position k out le h =
    drop-add position k object
    ∙ ap (drop k) h
    ∙ drop-append_le k out _ le
    ∙ ap (λ n. drop k out ++ drop n object) (omega (arith, length-drop k out))

pub At-nil : (object : Bytes) (position : ℕ) → At object position []
At-nil object position = ap (λ n. drop n object) (omega arith)

-- A read as a file makes it.
pub record ReadsAt {E : Type 0} (object : Bytes) (position remaining : ℕ) (s : Read E)
    : Type 0 where
  pub put_at : At object position s.put
  pub within : length s.put ≤ remaining
  pub moved : s.reader.position ≡ position + length s.put
  pub opened : IsOpen object s.reader
  -- A read that answers `Ok` in front of the end has put something into a buffer with room.
  pub progress :
      (length object ≤ position) ⊎ (remaining ≡ 0) ⊎ (s.answer ≢ ready (ok tt)) ⊎ (0 < length s.put)

start_read-IsPending :
    (object : Bytes) (r : S3Reader) (remaining : ℕ)
    → IsOpen object r
    → 0 < remaining
    → r.position < r.size
    → IsPending object r.position (start_read r remaining)
unfolding start_read
start_read-IsPending object r remaining o some_room before = record {
  from = refl;
  some_bytes = omega (arith, left);
  inside = omega (arith, left, o.whole);
  to = omega (
    arith,
    left,
    o.whole,
    o.fits,
    add_u64-exact r.position (min remaining (sub_u64 r.size r.position)),
    sub_u64-exact (add_u64 r.position (min remaining (sub_u64 r.size r.position))) 1,
  );
}
  where
    left : sub_u64 r.size r.position ≡ r.size - r.position
    left = sub_u64-exact r.size r.position (omega arith) (omega (arith, o.whole, o.fits))

length-pos : (xs : Bytes) → xs ≢ [] → 0 < length xs
length-pos [] h = absurd (h refl)
length-pos (x ∷ xs) h = omega arith

-- The request that a poll drives: the one in flight, or the one that the read would start.
abbrev pub driven : S3Reader → ℕ → Option PendingRead → PendingRead
driven r remaining none = start_read r remaining
driven r remaining (some p) = p

is_empty→nil : (xs : Bytes) → is_empty xs ≡ true → xs ≡ []
is_empty→nil [] h = refl
is_empty→nil (x ∷ xs) h = cc

not_empty→ne_nil : (xs : Bytes) → is_empty xs ≡ false → xs ≢ []
not_empty→ne_nil [] h e = cc
not_empty→ne_nil (x ∷ xs) h e = cc
