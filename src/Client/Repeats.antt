-- ===== src/Client/Repeats.antt =====
-- The retrying uploads of src/s3_client.rs, from the first request to the last: each attempt carries a
-- body of its own.
use my_s.Base.{
  ℕ, zero, suc, ◌+◌, ◌<◌, ◌≡◌, refl, sym, ◌∙◌, ◌⊎◌, inl, inr, ◌||◌, true, not, Option, none, some,
  List, ◌∷◌, Bytes, codes, leb, if◌then◌else◌, if-true, if-false, Bool-cases, Result, ok, err,
  arith, subst,
}
use my_s.Error.{S3Error, IoError, FlUrlErrorView, is_retryable}
use my_s.Upload.State.{UploadWriterState}
use my_s.Upload.Handle.{Joined}
use my_s.Client.Transport.{Environment, Sent, put_request_streamed, Outside, Io}
use my_s.Client.Send.{S3Client, unsigned_payload, send_put_streamed}
use my_s.Client.Requests.{upload_streamed, upload_with_writer}
use my_s.Client.Signed.{
  IsSigned, IsLocal, of_input, of_producer, SentOneOf, one_request, expect_success-sent,
}
use my_s.Client.Sends.{finished-SentOneOf}

-- What an attempt comes to, and the outside after it.
abbrev pub Attempted : Type 0 → Type 0 → Type 0 → Type 0
Attempted F B E = Result (Unit {0}) (S3Error E) × Outside F B

module _ {E : Type 0} (view : FlUrlErrorView E) (max_retries : ℕ) where
  -- An error of the input or of the producer is never retried.
  local_stops :
      (error : S3Error E) (retries : ℕ)
      → IsLocal error
      → (leb max_retries retries || not (is_retryable view error)) ≡ true
  unfolding is_retryable
  local_stops _ retries (of_input text) = ground arith
  local_stops _ retries (of_producer failure) = ground arith

module _ {F B E : Type 0} (view : FlUrlErrorView E) (max_retries : ℕ) where
  -- The loop behind attempt number `retries`: `again` is the rest of it.
  unfoldable pub after_round :
      (Outside F B → Option (Attempted F B E)) → ℕ → Attempted F B E → Option (Attempted F B E)
  unfolding is_retryable
  after_round again retries (ok done, w) = some (ok tt, w)
  after_round again retries (err error, w) =
      if leb max_retries retries || not (is_retryable view error)
      then some (err error, w)
      else again w

  -- `none` means that the fuel ran out.
  unfoldable pub rounds : (ℕ → Io F B E (Unit {0})) → ℕ → ℕ → Outside F B → Option (Attempted F B E)
  unfolding after_round
  rounds attempt zero retries w = none
  rounds attempt (suc f) retries w =
      after_round (rounds attempt f (retries + 1)) retries (attempt retries w)

  -- What went out from the attempt number `first` on: one request for each attempt, of which `P` holds
  -- at the attempt's number, and at most `left` of them.
  abbrev pub SentRounds :
      (ℕ → Sent F B → Type 0) → ℕ → ℕ → List (Sent F B) → List (Sent F B) → Type 0
  SentRounds P zero first before after = after ≡ before
  SentRounds P (suc left) first before after =
      (after ≡ before)
      ⊎ ((r : Sent F B) × P first r × SentRounds P left (first + 1) (r ∷ before) after)

  stopped :
      (P : ℕ → Sent F B → Type 0) (left first : ℕ) {before after : List (Sent F B)}
      → after ≡ before
      → SentRounds P left first before after
  stopped P zero first same = same
  stopped P (suc left) first same = inl same

  rounds-SentRounds :
      (attempt : ℕ → Io F B E (Unit {0})) (P : ℕ → Sent F B → Type 0)
      → ((n : ℕ) (w : Outside F B) → SentOneOf (P n) w.sent (attempt n w))
      → (f retries : ℕ) (w : Outside F B) → retries + f ≡ suc max_retries
      → 0 < f
      → (x : Attempted F B E) × (rounds attempt f retries w ≡ some x)
        × SentRounds P f retries w.sent x.1.sent
  unfolding rounds
  rounds-SentRounds attempt P sends zero retries w fuel pos = absurd (omega arith)
  rounds-SentRounds attempt P sends (suc f) retries w fuel pos =
      go (attempt retries w) (sends retries w)
        (λ v lt. rounds-SentRounds attempt P sends f (retries + 1) v (omega arith) (omega arith))
    where
      go :
          (x : Attempted F B E)
          → SentOneOf (P retries) w.sent x
          → ((v : Outside F B)
              → retries < max_retries
              → (y : Attempted F B E) × (rounds attempt f (retries + 1) v ≡ some y)
                × SentRounds P f (retries + 1) v.sent y.1.sent)
          → (y : Attempted F B E) × (after_round (rounds attempt f (retries + 1)) retries x
              ≡ some y)
            × SentRounds P (suc f) retries w.sent y.1.sent
      go (ok done, v) (inl (e, failed, local, same)) again = absurd cc
      go (ok done, v) (inr (r, one, holds)) again =
          ((ok tt, v), refl, inr (r, holds, stopped P f (retries + 1) one))
      go (err error, v) (inl (e, failed, local, same)) again = (
        (err error, v),
        if-true _ _ (local_stops view max_retries error retries (subst IsLocal (sym cc) local)),
        inl same,
      )
      go (err error, v) (inr (r, one, holds)) again =
          elim (Bool-cases (leb max_retries retries || not (is_retryable view error))) [
            | inl stops ↦
                ((err error, v), if-true _ _ stops, inr (r, holds, stopped P f (retries + 1) one))
            | inr goes_on ↦
                let (y, rest, sent) = again v (ground arith) in
                (
                  y,
                  if-false _ _ goes_on ∙ rest,
                  inr (r, holds, subst (λ h. SentRounds P f (retries + 1) h y.1.sent) one sent),
                )
          ]

  -- The retrying upload, and the one with a writer.
  module _ {R T N : Type 0} (env : Environment F B E R T N) (s3 : S3Client)
      (bucket_name key : Bytes) (content_length upload_timeout : ℕ) where
    -- `new_body n` is the channel that attempt `n` was given.
    unfoldable pub upload_streamed_with_retries : (ℕ → B) → Outside F B → Option (Attempted F B E)
    unfolding rounds upload_streamed
    upload_streamed_with_retries new_body =
        rounds
          (λ n. upload_streamed env s3 bucket_name key (new_body n) content_length upload_timeout)
          (suc max_retries) 0

    -- For attempt `n` the channel of its writer, what its producer came to, and the state it left.
    unfoldable pub upload_with_writer_with_retries :
        (ℕ → B)
        → (ℕ → Joined (Result (Unit {0}) (IoError E)))
        → (ℕ → UploadWriterState)
        → Outside F B
        → Option (Attempted F B E)
    unfolding rounds upload_with_writer
    upload_with_writer_with_retries body produced state =
        rounds
          (λ n.
            upload_with_writer env s3 bucket_name key (body n) content_length upload_timeout
              (produced n) (state n))
          (suc max_retries) 0

    -- A request of attempt `n`: it streams the body of that attempt, with the declared length, and is
    -- signed as `UNSIGNED-PAYLOAD`.
    abbrev pub Streams : (ℕ → B) → ℕ → Sent F B → Type 0
    Streams new_body n r =
        (signed : F) × (r ≡ put_request_streamed signed (new_body n) content_length)
        × IsSigned env s3 (codes "PUT") unsigned_payload signed

    upload_streamed-Streams :
        (new_body : ℕ → B) (n : ℕ) (w : Outside F B)
        → SentOneOf
            (Streams new_body n)
            w.sent
            (upload_streamed env s3 bucket_name key (new_body n) content_length upload_timeout w)
    unfolding upload_streamed send_put_streamed
    upload_streamed-Streams new_body n w =
        one_request env s3 (Streams new_body n) _ (codes "PUT") unsigned_payload
          (λ fl_url. put_request_streamed fl_url (new_body n) content_length) _ w
          (λ signed is_signed. (signed, refl, is_signed)) (expect_success-sent env s3)

    -- Both retrying uploads come to an end, with at most `max_retries + 1` requests: one for each attempt
    -- in order, which streams the body that was made for just that attempt, with the declared length,
    -- and is signed as `UNSIGNED-PAYLOAD`.
    pub upload_streamed_with_retries-SentRounds :
        (body : ℕ → B) (produced : ℕ → Joined (Result (Unit {0}) (IoError E)))
        (state : ℕ → UploadWriterState) (w : Outside F B)
        → ((x : Attempted F B E) × (upload_streamed_with_retries body w ≡ some x)
            × SentRounds (Streams body) (suc max_retries) 0 w.sent x.1.sent)
          × ((x : Attempted F B E) × (upload_with_writer_with_retries body produced state w
                ≡ some x)
              × SentRounds (Streams body) (suc max_retries) 0 w.sent x.1.sent)
    unfolding upload_streamed_with_retries upload_with_writer_with_retries upload_with_writer
    upload_streamed_with_retries-SentRounds body produced state w = (
      rounds-SentRounds _ (Streams body) (upload_streamed-Streams body) (suc max_retries) 0 w
          (omega arith) (omega arith),
      rounds-SentRounds _ (Streams body)
          (λ n v.
            finished-SentOneOf env s3 (Streams body n) v.sent
              (upload_streamed env s3 bucket_name key (body n) content_length upload_timeout v)
              (produced n) (state n) (upload_streamed-Streams body n v))
          (suc max_retries) 0 w (omega arith) (omega arith),
    )
