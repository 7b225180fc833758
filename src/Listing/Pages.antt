-- ===== src/Listing/Pages.antt =====
-- src/list_objects.rs: the loops come to an end, and a page hands on no empty token.
use my_s.Base.{
  ℕ, zero, suc, ◌<◌, ◌≤◌, ◌≡◌, ◌≢◌, refl, ap, ◌∙◌, Bool, true, false, List, [], ◌∷◌, ◌++◌, Option,
  none, some, Bytes, codes, length, is_empty, if◌then◌else◌, Result, ok, err, Result-cases, inl,
  inr, arith,
}
use my_s.Error.{S3Error, other_error}
use my_s.Xml.Walker.{XmlReader, open_walker, read_text}
use my_s.Xml.Walker.Forward.{Moves, next_child_of-ends, read_text-forward, open_walker-forward}
use my_s.Listing.{
  Page, Fields, S3ObjectInfo, S3ListObjectsPage, finish_page, page_of, set_token, set_truncated,
  empty_page, object_of,
}
use my_s.Listing.Loops.{
  Run, then_text, then_run, then_result, read_fields, read_object, read_prefixes,
  read_common_prefixes, read_element, read_page, parse_list_objects_v2, listing, finished,
}
use my_s.Listing.Settles.{Good, Settles, Settles-le, settle-child, settle-text, settle-run}

-- A loop whose value is not looked at.
abbrev Any : {A : Type 0} → A → Type 0
Any a = Unit {0}

-- The token of a page is none, or not empty.
abbrev pub TokenOk : Option Bytes → Type 0
TokenOk none = Unit {0}
TokenOk (some token) = token ≢ []

abbrev PageOk : Page → Type 0
PageOk page = TokenOk page.next_continuation_token

set_token-PageOk : (value : Bytes) (page : Page) → PageOk page → PageOk (set_token value page)
unfolding set_token
set_token-PageOk [] page good = good
set_token-PageOk (c ∷ value) page good = λ e. cc

set_truncated-PageOk :
    (value : Bytes) (page : Page) → PageOk page → PageOk (set_truncated value page)
unfolding set_truncated
set_truncated-PageOk value page good = good

-- A page that can be resumed where it says so: its token is none, or not empty.
abbrev pub Resumes : {E : Type 0} → Result S3ListObjectsPage (S3Error E) → Type 0
Resumes (ok page) = TokenOk page.next_continuation_token
Resumes (err error) = Unit {0}

module _ (E : Type 0) {R T N : Type 0} (xml : XmlReader R T N) (left : R → ℕ)
    (moves : Moves xml left) where
  read_fields-Settles :
      (f : ℕ) (reader : R) (contents : T) (fields : Fields)
      → left reader < f
      → Settles left {E = E} Any (left reader) (read_fields xml f reader contents fields)
  unfolding read_fields
  read_fields-Settles zero reader contents fields fuel = absurd (omega arith)
  read_fields-Settles (suc f) reader contents fields fuel =
      let (outcome, e, within) = next_child_of-ends xml left moves (suc f) reader contents _ fuel in
      settle-child left Any (left reader) _ outcome _ _ e within (λ r at. (_, refl, (at, tt)))
        (λ field r before. settle-text left Any (left reader) _ _ (λ value s read.
          let forward = read_text-forward xml left moves r field value s read in
          Settles-le left Any (left s) (left reader) _ (omega (arith, forward))
            (read_fields-Settles f s contents _ (omega (arith, forward)))))

  read_object-Settles :
      (f : ℕ) (reader : R) (contents : T)
      → left reader < f
      → Settles left {E = E} Any (left reader) (read_object xml f reader contents)
  unfolding read_object
  read_object-Settles f reader contents fuel =
      settle-run left Any Any (left reader) (left reader) _ _
        (read_fields-Settles f reader contents _ fuel)
        (λ fields r at any. go (object_of fields) r at)
    where
      go :
          (object : Result S3ObjectInfo (S3Error E)) (r : R)
          → left r ≤ left reader
          → Settles left {E = E} Any (left reader) (then_result object (λ o. some (ok (o, r))))
      go (ok o) r at = (_, refl, (at, tt))
      go (err error) r at = (_, refl, tt)

  read_prefixes-Settles :
      (f : ℕ) (reader : R) (node : T) (found : List Bytes)
      → left reader < f
      → Settles left {E = E} Any (left reader) (read_prefixes xml f reader node found)
  unfolding read_prefixes
  read_prefixes-Settles zero reader node found fuel = absurd (omega arith)
  read_prefixes-Settles (suc f) reader node found fuel =
      let (outcome, e, within) = next_child_of-ends xml left moves (suc f) reader node _ fuel in
      settle-child left Any (left reader) _ outcome _ _ e within (λ r at. (_, refl, (at, tt)))
        (λ child r before. settle-text left Any (left reader) _ _ (λ value s read.
          let forward = read_text-forward xml left moves r child value s read in
          Settles-le left Any (left s) (left reader) _ (omega (arith, forward))
            (read_prefixes-Settles f s node _ (omega (arith, forward)))))

  read_common_prefixes-Settles :
      (f : ℕ) (reader : R) (node : T)
      → left reader < f
      → Settles left {E = E} Any (left reader) (read_common_prefixes xml f reader node)
  unfolding read_common_prefixes
  read_common_prefixes-Settles f reader node fuel =
      settle-run left Any Any (left reader) (left reader) _ _
        (read_prefixes-Settles f reader node [] fuel) (λ found r at any. go found r at)
    where
      go :
          (found : List Bytes) (r : R)
          → left r ≤ left reader
          → Settles left {E = E} Any (left reader) (
              if is_empty found
              then some (
                  err (
                    other_error
                      (codes "ListObjectsV2 sent a <CommonPrefixes> with no <Prefix> in it")))
              else some (ok (found, r)))
      go [] r at = (_, refl, tt)
      go (p ∷ found) r at = (_, refl, (at, tt))

  if-Settles :
      (b : Bool) (P : Page → Type 0) (n : ℕ) (this other : Run E R Page)
      → Settles left P n this
      → Settles left P n other
      → Settles left P n (if b then this else other)
  if-Settles true P n this other here there = here
  if-Settles false P n this other here there = there

  arm-run :
      {A : Type 0} (n : ℕ) (run : Run E R A) (next : A → Page)
      → Settles left {E = E} Any n run
      → ((a : A) → PageOk (next a))
      → Settles left {E = E} PageOk n (then_run run (λ a r. some (ok (next a, r))))
  arm-run n run next settles good =
      settle-run left Any PageOk n n run _ settles
        (λ a r at any. (ok (next a, r), refl, (at, good a)))

  arm-text :
      (reader : R) (node : T) (next : Bytes → Page)
      → ((value : Bytes) → PageOk (next value))
      → Settles left {E = E} PageOk
          (left reader)
          (then_text (read_text xml reader node) (λ value r. some (ok (next value, r))))
  arm-text reader node next good =
      settle-text left PageOk (left reader) (read_text xml reader node) _ (λ value r read. (
        ok (next value, r),
        refl,
        (read_text-forward xml left moves reader node value r read, good value),
      ))

  read_element-Settles :
      (f : ℕ) (reader : R) (node : T) (page : Page)
      → left reader < f
      → PageOk page
      → Settles left {E = E} PageOk (left reader) (read_element xml f reader node page)
  unfolding read_element
  read_element-Settles f reader node page fuel good =
      let n = left reader in
      if-Settles _ PageOk n _ _
        (arm-run n _ (λ object. record page { objects = page.objects ++ object ∷ [] })
          (read_object-Settles f reader node fuel) (λ object. good))
        (if-Settles _ PageOk n _ _
          (arm-run n _ (λ found. record page { common_prefixes = page.common_prefixes ++ found })
            (read_common_prefixes-Settles f reader node fuel) (λ found. good))
          (if-Settles _ PageOk n _ _
            (arm-text reader node (λ value. set_truncated value page)
              (λ value. set_truncated-PageOk value page good))
            (if-Settles _ PageOk n _ _
              (arm-text reader node (λ value. set_token value page)
                (λ value. set_token-PageOk value page good))
              (ok (page, reader), refl, (omega arith, good)))))

  read_page-Settles :
      (f : ℕ) (reader : R) (root : T) (page : Page)
      → left reader < f
      → PageOk page
      → Settles left {E = E} PageOk (left reader) (read_page xml f reader root page)
  unfolding read_page
  read_page-Settles zero reader root page fuel good = absurd (omega arith)
  read_page-Settles (suc f) reader root page fuel good =
      let (outcome, e, within) = next_child_of-ends xml left moves (suc f) reader root _ fuel in
      settle-child left PageOk (left reader) _ outcome _ _ e within (λ r at. (_, refl, (at, good)))
        (λ node r before.
          settle-run left PageOk PageOk (left r) (left reader) _ _
            (read_element-Settles (suc f) r node page (omega arith) good)
            (λ next s at ok_so_far.
              Settles-le left PageOk (left s) (left reader) _ (omega arith)
                (read_page-Settles f s root next (omega arith) ok_so_far)))

  page_of-Resumes :
      (prefixes : List Bytes) (objects : List S3ObjectInfo) (truncated : Bool)
      (token : Option Bytes)
      → TokenOk token
      → Resumes {E = E} (page_of prefixes objects truncated token)
  unfolding page_of
  page_of-Resumes prefixes objects false token good = tt
  page_of-Resumes prefixes objects true none good = tt
  page_of-Resumes prefixes objects true (some token) good = good

  finished-Resumes :
      (n : ℕ) (outcome : Result (Page × R) (S3Error E))
      → Good left PageOk n outcome
      → (answer : Result S3ListObjectsPage (S3Error E)) × (finished xml (some outcome)
          ≡ some answer)
        × Resumes answer
  unfolding finished finish_page
  finished-Resumes n (err error) good = (err error, refl, tt)
  finished-Resumes n (ok (page, r)) (at, good) = (
    finish_page page,
    refl,
    page_of-Resumes page.common_prefixes page.objects page.is_truncated page.next_continuation_token
        good,
  )

  -- Over a reader that moves forward, reading a listing comes to an end on every body, and a page that
  -- it answers carries no empty continuation token.
  pub parse_list_objects_v2-Resumes :
      (body : Bytes)
      → (outcome : Result S3ListObjectsPage (S3Error E)) × (parse_list_objects_v2 xml body
          ≡ some outcome)
        × Resumes outcome
  unfolding parse_list_objects_v2 listing
  parse_list_objects_v2-Resumes body =
      elim (Result-cases (open_walker xml body (codes "ListBucketResult"))) [
        | inr (error, e) ↦ (_, ap (listing xml body) e, tt)
        | inl (none, e) ↦ (_, ap (listing xml body) e, tt)
        | inl (some w, e) ↦
            let (outcome, read, good) =
              read_page-Settles (suc (length body)) w.reader w.root empty_page
                (omega (arith, open_walker-forward xml left moves body _ w e)) tt in
            let (answer, done, resumes) = finished-Resumes (left w.reader) outcome good in
            (answer, ap (listing xml body) e ∙ ap (finished xml) read ∙ done, resumes)
      ]
