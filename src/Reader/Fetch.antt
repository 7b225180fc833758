-- ===== src/Reader/Fetch.antt =====
-- The future of `start_read` in src/reader.rs: one ranged download, read until it is complete or too
-- long.
use my_s.Base.{
  ℕ, ◌≤◌, ◌<◌, ◌≡◌, refl, List, [], ◌∷◌, ◌++◌, Option, none, some, Bytes, length, ltb, Result, ok,
  err, Poll, ready, waiting, arith, true, false, ◌⊎◌, inl, inr, Bool-cases, append_assoc,
  length-append, add_u64-exact, u64_mod, add_u64, subst, ltb→lt, sym, ap, ◌∙◌,
}
use my_s.Error.{S3Error}
use my_s.Download.{S3DownloadStream, get_next_chunk, at_end}
use native.Mathlib.Decide.{dec_le}
use my_s.Download.Whole.{chunks, Covers, Covers-intro}

module _ {E : Type 0} where
  -- What the loop does with one answer of `get_next_chunk`.
  unfoldable pub fetched :
      ℕ
      → S3DownloadStream × Result (Option Bytes) (S3Error E)
      → (S3DownloadStream → Bytes → Poll (Result Bytes (S3Error E)))
      → Bytes
      → Poll (Result Bytes (S3Error E))
  fetched requested (s, err error) more body = ready (err error)
  fetched requested (s, ok none) more body = ready (ok body)
  fetched requested (s, ok (some chunk)) more body = elim (ltb requested (length (body ++ chunk))) [
    | true ↦ ready (ok (body ++ chunk))
    | false ↦ more s (body ++ chunk)
  ]

  unfoldable pub fetch_chunks :
      ℕ
      → List (Result (Option Bytes) E)
      → S3DownloadStream
      → Bytes
      → Poll (Result Bytes (S3Error E))
  unfolding fetched get_next_chunk
  fetch_chunks requested [] s body = waiting
  fetch_chunks requested (item ∷ items) s body =
      fetched requested (get_next_chunk s item) (fetch_chunks requested items) body

  -- From the answer of `download_file_range` on.
  unfoldable pub fetch :
      ℕ
      → Result S3DownloadStream (S3Error E)
      → List (Result (Option Bytes) E)
      → Poll (Result Bytes (S3Error E))
  unfolding fetch_chunks
  fetch requested (err error) items = ready (err error)
  fetch requested (ok stream) items = fetch_chunks requested items stream []

  fetched-ended :
      (requested : ℕ) (limit : Option ℕ) (s : S3DownloadStream)
      (more : S3DownloadStream → Bytes → Poll (Result Bytes (S3Error E))) (body whole : Bytes)
      → fetched requested (s, at_end limit s.received) more body ≡ ready (ok whole)
      → (whole ≡ body) × ((expected : ℕ) → limit ≡ some expected → expected ≤ s.received)
  unfolding fetched at_end
  fetched-ended requested none s more body whole e = (ground arith, λ expected h. cc)
  fetched-ended requested (some n) s more body whole e = elim (Bool-cases (ltb s.received n)) [
    | inl short ↦ absurd (ground arith)
    | inr long ↦ (ground arith, λ expected h. ground arith)
  ]

  fetched-long :
      (requested : ℕ) (s : S3DownloadStream) (chunk body : Bytes)
      (more : S3DownloadStream → Bytes → Poll (Result Bytes (S3Error E)))
      → ltb requested (length (body ++ chunk)) ≡ true
      → fetched requested (s, ok (some chunk)) more body ≡ ready (ok (body ++ chunk))
  unfolding fetched
  fetched-long requested s chunk body more e = rw (e, fetched)

  fetched-short :
      (requested : ℕ) (s : S3DownloadStream) (chunk body : Bytes)
      (more : S3DownloadStream → Bytes → Poll (Result Bytes (S3Error E)))
      → ltb requested (length (body ++ chunk)) ≡ false
      → fetched requested (s, ok (some chunk)) more body ≡ more s (body ++ chunk)
  unfolding fetched
  fetched-short requested s chunk body more e = rw (e, fetched)

  -- A fetch that stopped early has more than was asked for.
  stopped :
      (requested : ℕ) (body whole : Bytes)
      → ltb requested (length body) ≡ true
      → ◌≡◌ {A = Poll (Result Bytes (S3Error E))} (ready (ok body)) (ready (ok whole))
      → (body ≡ whole) × (requested < length whole)
  stopped requested body whole long e =
      let same : body ≡ whole = cc in
      (same, omega (arith, ltb→lt requested (length body) long, ap length same))

  fetch_chunks-prefix :
      (requested : ℕ) (items : List (Result (Option Bytes) E)) (s : S3DownloadStream)
      (body whole : Bytes)
      → s.received ≡ length body
      → length (body ++ chunks items) < u64_mod
      → fetch_chunks requested items s body ≡ ready (ok whole)
      → (rest : Bytes) × (body ++ chunks items ≡ whole ++ rest)
        × (length whole ≤ requested
            → (rest ≡ [])
              × ((expected : ℕ) → s.content_length ≡ some expected → expected ≤ length whole))
  unfolding fetch_chunks
  fetch_chunks-prefix requested [] s body whole count fits e = cc
  fetch_chunks-prefix requested (err error ∷ items) s body whole count fits e = unfold fetched in cc
  fetch_chunks-prefix requested (ok none ∷ items) s body whole count fits e =
      let (same, long) =
        fetched-ended requested s.content_length s (fetch_chunks requested items) body whole e in
      (
        [],
        ap (◌++ []) (sym same),
        λ le. (refl, λ expected h. omega (arith, long expected h, ap length same)),
      )
  fetch_chunks-prefix requested (ok (some chunk) ∷ items) s body whole count fits e =
      let next = record s { received = add_u64 s.received (length chunk) } in
      elim (Bool-cases (ltb requested (length (body ++ chunk)))) [
        | inl long ↦
            let (same, above) = stopped requested (body ++ chunk) whole long (
              sym (fetched-long requested next chunk body (fetch_chunks requested items) long)
              ∙ e) in
            (
              chunks items,
              sym (append_assoc body chunk (chunks items)) ∙ ap (◌++ chunks items) same,
              λ le. absurd (omega arith),
            )
        | inr short ↦
            let (rest, spelled, complete) =
              fetch_chunks-prefix requested items next (body ++ chunk) whole
                (omega (
                  arith,
                  length-append body chunk,
                  length-append body (chunk ++ chunks items),
                  length-append chunk (chunks items),
                  add_u64-exact s.received (length chunk),
                ))
                (subst (λ b. length b < u64_mod) (sym (append_assoc body chunk (chunks items)))
                  fits)
                (sym (fetched-short requested next chunk body (fetch_chunks requested items) short)
                  ∙ e) in
            (rest, sym (append_assoc body chunk (chunks items)) ∙ spelled, complete)
      ]

  -- The body that a fetch resolves to is what the socket delivered, from its first byte on; and either
  -- it is longer than what was asked for, or it is all of what was delivered, and not shorter than the
  -- length that the answer stated.
  pub fetch-prefix :
      (requested : ℕ) (items : List (Result (Option Bytes) E)) (s : S3DownloadStream)
      (whole : Bytes)
      → s.received ≡ 0
      → length (chunks items) < u64_mod
      → fetch requested (ok s) items ≡ ready (ok whole)
      → (rest : Bytes) × (chunks items ≡ whole ++ rest)
        × ((requested < length whole) ⊎ ((rest ≡ []) × Covers (length whole) s.content_length))
  unfolding fetch
  fetch-prefix requested items s whole fresh fits e =
      let (rest, spelled, complete) = fetch_chunks-prefix requested items s [] whole fresh fits e in
      (
        rest,
        spelled,
        elim (dec_le (length whole) requested) [
          | yes le ↦
              let (all, stated) = complete le in
              inr (all, Covers-intro (length whole) s.content_length stated)
          | no long ↦ inl (omega arith)
        ],
      )
