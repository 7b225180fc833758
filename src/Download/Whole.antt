-- ===== src/Download/Whole.antt =====
-- Reading a stream of src/download_stream.rs to its end, as its callers do.
use my_s.Base.{
  ℕ, ◌≤◌, ◌<◌, ◌≡◌, refl, ap, sym, ◌∙◌, List, [], ◌∷◌, ◌++◌, append_assoc, append-nil, Option, none,
  some, Bytes, length, length-append, ltb, Result, ok, err, Poll, ready, waiting, add_u64-exact,
  u64_mod, arith, Bool-cases, inl, inr,
}
use my_s.Error.{S3Error}
use my_s.Download.{S3DownloadStream, get_next_chunk, at_end}

-- A length that is stated is not more than what there is.
abbrev pub Covers : ℕ → Option ℕ → Type 0
Covers n none = Unit {0}
Covers n (some expected) = expected ≤ n

pub Covers-intro :
    (n : ℕ) (limit : Option ℕ)
    → ((expected : ℕ) → limit ≡ some expected → expected ≤ n)
    → Covers n limit
Covers-intro n none h = tt
Covers-intro n (some expected) h = h expected refl

module _ {E : Type 0} where
  -- What the caller of one `get_next_chunk` does with its answer.
  unfoldable pub after_chunk :
      S3DownloadStream × Result (Option Bytes) (S3Error E)
      → (S3DownloadStream → Bytes → Poll (Result Bytes (S3Error E)))
      → Bytes
      → Poll (Result Bytes (S3Error E))
  after_chunk (s, err error) more body = ready (err error)
  after_chunk (s, ok none) more body = ready (ok body)
  after_chunk (s, ok (some chunk)) more body = more s (body ++ chunk)

  -- `while let Some(chunk) = stream.get_next_chunk().await? { body.extend(chunk) }` over what the
  -- socket answers; it waits where the answers run out.
  unfoldable pub read_to_end :
      List (Result (Option Bytes) E) → S3DownloadStream → Bytes → Poll (Result Bytes (S3Error E))
  unfolding after_chunk get_next_chunk
  read_to_end [] s body = waiting
  read_to_end (item ∷ items) s body = after_chunk (get_next_chunk s item) (read_to_end items) body

  -- The chunks of the answers.
  abbrev pub chunks : List (Result (Option Bytes) E) → Bytes
  chunks [] = []
  chunks (ok (some chunk) ∷ items) = chunk ++ chunks items
  chunks (ok none ∷ items) = []
  chunks (err error ∷ items) = []

  ended :
      (limit : Option ℕ) (s : S3DownloadStream)
      (more : S3DownloadStream → Bytes → Poll (Result Bytes (S3Error E))) (body whole : Bytes)
      → after_chunk (s, at_end limit s.received) more body ≡ ready (ok whole)
      → (whole ≡ body) × ((expected : ℕ) → limit ≡ some expected → expected ≤ s.received)
  unfolding after_chunk at_end
  ended none s more body whole e = (ground arith, λ expected h. cc)
  ended (some n) s more body whole e = elim (Bool-cases (ltb s.received n)) [
    | inl short ↦ absurd (ground arith)
    | inr long ↦ (ground arith, λ expected h. ground arith)
  ]

  -- Nothing that was read is dropped.
  length-read_to_end :
      (items : List (Result (Option Bytes) E)) (s : S3DownloadStream) (body whole : Bytes)
      → read_to_end items s body ≡ ready (ok whole)
      → length body ≤ length whole
  unfolding read_to_end
  length-read_to_end [] s body whole e = cc
  length-read_to_end (err error ∷ items) s body whole e = cc
  length-read_to_end (ok none ∷ items) s body whole e =
      omega (arith, ap length (ended s.content_length s (read_to_end items) body whole e).0)
  length-read_to_end (ok (some chunk) ∷ items) s body whole e =
      omega (arith, length-append body chunk, length-read_to_end items _ (body ++ chunk) whole e)

  read_to_end-stated :
      (items : List (Result (Option Bytes) E)) (s : S3DownloadStream) (body whole : Bytes)
      → s.received ≡ length body
      → read_to_end items s body ≡ ready (ok whole)
      → length whole < u64_mod
      → (whole ≡ body ++ chunks items)
        × ((expected : ℕ) → s.content_length ≡ some expected → expected ≤ length whole)
  unfolding read_to_end
  read_to_end-stated [] s body whole count e fits = cc
  read_to_end-stated (err error ∷ items) s body whole count e fits = cc
  read_to_end-stated (ok none ∷ items) s body whole count e fits =
      let (same, long) = ended s.content_length s (read_to_end items) body whole e in
      (same ∙ sym (append-nil body), λ expected h. omega (arith, long expected h, ap length same))
  read_to_end-stated (ok (some chunk) ∷ items) s body whole count e fits =
      let within = length-read_to_end items _ (body ++ chunk) whole e in
      let rest =
        read_to_end-stated items _ (body ++ chunk) whole
          (omega (arith, length-append body chunk, add_u64-exact s.received (length chunk))) e
          fits in
      (rest.0 ∙ append_assoc body chunk (chunks items), rest.1)

  -- An object that is read to its end is all that the socket delivered up to there, and is not shorter
  -- than the length that the storage stated, if it stated one.
  pub read_to_end-whole :
      (items : List (Result (Option Bytes) E)) (s : S3DownloadStream) (body whole : Bytes)
      → s.received ≡ length body
      → read_to_end items s body ≡ ready (ok whole)
      → length whole < u64_mod
      → (whole ≡ body ++ chunks items) × Covers (length whole) s.content_length
  read_to_end-whole items s body whole count e fits =
      let (all, stated) = read_to_end-stated items s body whole count e fits in
      (all, Covers-intro (length whole) s.content_length stated)
