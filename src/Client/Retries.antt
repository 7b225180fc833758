-- ===== src/Client/Retries.antt =====
-- `upload_streamed_with_retries` and `upload_with_writer_with_retries` of src/s3_client.rs: the same
-- loop around one attempt. What the attempts come to is an argument, by the number of the attempt.
use my_s.Base.{
  ℕ, zero, suc, ◌+◌, ◌≤◌, ◌<◌, ◌≡◌, refl, ◌⊎◌, inl, inr, ◌||◌, true, false, not, Option, none, some,
  leb, if◌then◌else◌, if-true, if-false, Bool-cases, Result, ok, err, arith, ◌∙◌, ap, sym, subst,
  Result-cases,
}
use my_s.Error.{S3Error, IoError, FlUrlErrorView, is_retryable, upload_producer_failed}
use my_s.Upload.State.{UploadWriterState}
use my_s.Upload.Handle.{Joined, finish_upload_with_writer}

module _ {E : Type 0} (view : FlUrlErrorView E) (max_retries : ℕ) where
  -- One round of the loop behind the attempt: the result, and how many attempts were made.
  unfoldable pub after_attempt :
      Option (Result (Unit {0}) (S3Error E) × ℕ)
      → ℕ
      → Result (Unit {0}) (S3Error E)
      → Option (Result (Unit {0}) (S3Error E) × ℕ)
  unfolding is_retryable
  after_attempt again retries (ok done) = some (ok tt, suc retries)
  after_attempt again retries (err error) =
      if leb max_retries retries || not (is_retryable view error)
      then some (err error, suc retries)
      else again

  -- `none` means that the fuel ran out.
  unfoldable pub attempts :
      (ℕ → Result (Unit {0}) (S3Error E)) → ℕ → ℕ → Option (Result (Unit {0}) (S3Error E) × ℕ)
  unfolding after_attempt
  attempts attempt zero retries = none
  attempts attempt (suc f) retries =
      after_attempt (attempts attempt f (retries + 1)) retries (attempt retries)

  -- One round for the first attempt and one for each retry.
  unfoldable pub upload_streamed_with_retries :
      (ℕ → Result (Unit {0}) (S3Error E)) → Option (Result (Unit {0}) (S3Error E) × ℕ)
  unfolding attempts
  upload_streamed_with_retries attempt = attempts attempt (suc max_retries) 0

  unfoldable pub upload_with_writer_with_retries :
      (ℕ → Result (Unit {0}) (S3Error E))
      → (ℕ → Joined (Result (Unit {0}) (IoError E)))
      → (ℕ → UploadWriterState)
      → Option (Result (Unit {0}) (S3Error E) × ℕ)
  unfolding attempts finish_upload_with_writer
  upload_with_writer_with_retries upload produce state =
      attempts (λ n. finish_upload_with_writer (upload n) (produce n) (state n)) (suc max_retries) 0

-- An attempt that the loop repeats.
abbrev pub FailsRetryably :
    {E : Type 0} → FlUrlErrorView E → (ℕ → Result (Unit {0}) (S3Error E)) → ℕ → Type 0
FailsRetryably {E} view attempt n =
    (error : S3Error E) × (attempt n ≡ err error) × (is_retryable view error ≡ true)

-- Each of the attempts before `n` is one.
abbrev pub AllFail :
    {E : Type 0} → FlUrlErrorView E → (ℕ → Result (Unit {0}) (S3Error E)) → ℕ → Type 0
AllFail view attempt zero = Unit {0}
AllFail view attempt (suc n) = AllFail view attempt n × FailsRetryably view attempt n

-- What ends the loop: success, the last attempt that is allowed, or an error that is not retryable.
abbrev pub Ends : {E : Type 0} → FlUrlErrorView E → ℕ → ℕ → Result (Unit {0}) (S3Error E) → Type 0
Ends view max_retries n (ok done) = Unit {0}
Ends view max_retries n (err error) = (n ≡ max_retries) ⊎ (is_retryable view error ≡ false)

le_cases : (m n : ℕ) → m ≤ n → (m ≡ n) ⊎ (m < n)
le_cases m n le = omega arith

module _ {E : Type 0} (view : FlUrlErrorView E) (max_retries : ℕ) where
  stops-Ends :
      (error : S3Error E) (retries : ℕ)
      → (leb max_retries retries || not (is_retryable view error)) ≡ true
      → retries ≤ max_retries
      → (retries ≡ max_retries) ⊎ (is_retryable view error ≡ false)
  stops-Ends error retries stops le = ground arith

  goes_on-FailsRetryably :
      (error : S3Error E) (retries : ℕ)
      → (leb max_retries retries || not (is_retryable view error)) ≡ false
      → (retries < max_retries) × (is_retryable view error ≡ true)
  goes_on-FailsRetryably error retries goes_on = ground arith

  attempts-settles :
      (attempt : ℕ → Result (Unit {0}) (S3Error E)) (f retries : ℕ)
      → retries + f ≡ suc max_retries
      → 0 < f
      → (n : ℕ) × (attempts view max_retries attempt f retries ≡ some (attempt n, suc n))
        × (n ≤ max_retries)
        × ((m : ℕ) → retries ≤ m → m < n → FailsRetryably view attempt m)
        × Ends view max_retries n (attempt n)
  unfolding attempts
  attempts-settles attempt zero retries fuel pos = absurd (omega arith)
  attempts-settles attempt (suc f) retries fuel pos = elim (Result-cases (attempt retries)) [
    | inl (done, e) ↦ (
      retries,
      ap (after_attempt view max_retries _ retries) e ∙ sym (ap (λ r. some (r, suc retries)) e),
      omega arith,
      (λ m le lt. absurd (omega arith)),
      subst (Ends view max_retries retries) (sym e) tt,
    )
    | inr (error, e) ↦
        elim (Bool-cases (leb max_retries retries || not (is_retryable view error))) [
          | inl stops ↦ (
            retries,
            ap (after_attempt view max_retries _ retries) e
                ∙ if-true _ _ stops
                ∙ sym (ap (λ r. some (r, suc retries)) e),
            omega arith,
            (λ m le lt. absurd (omega arith)),
            subst (Ends view max_retries retries) (sym e)
                (stops-Ends error retries stops (omega arith)),
          )
          | inr goes_on ↦
              let (below, retryable) = goes_on-FailsRetryably error retries goes_on in
              let (n, settled, le, failed, ends) =
                attempts-settles attempt f (retries + 1) (omega arith) (omega arith) in
              (
                n,
                ap (after_attempt view max_retries _ retries) e ∙ if-false _ _ goes_on ∙ settled,
                le,
                (λ m from until. elim (le_cases retries m from) [
                  | inl same ↦ subst (FailsRetryably view attempt) same (error, e, retryable)
                  | inr later ↦ failed m (omega arith) until
                ]),
                ends,
              )
        ]
  ]

  AllFail-intro :
      (attempt : ℕ → Result (Unit {0}) (S3Error E)) (n : ℕ)
      → ((m : ℕ) → m < n → FailsRetryably view attempt m)
      → AllFail view attempt n
  AllFail-intro attempt zero failed = tt
  AllFail-intro attempt (suc n) failed =
      (AllFail-intro attempt n (λ m lt. failed m (omega arith)), failed n (omega arith))

  -- The loop of the two retrying uploads comes to an end within the fuel, and its result is that of
  -- the last attempt `n`: at most `max_retries` attempts came before it, each of them failed with a
  -- retryable error, and attempt `n` succeeded, was the last one allowed, or failed for good.
  pub upload_streamed_with_retries-settles :
      (attempt : ℕ → Result (Unit {0}) (S3Error E))
      → (n : ℕ) × (upload_streamed_with_retries view max_retries attempt ≡ some (attempt n, suc n))
        × (n ≤ max_retries)
        × AllFail view attempt n
        × Ends view max_retries n (attempt n)
  unfolding upload_streamed_with_retries
  upload_streamed_with_retries-settles attempt =
      let (n, settled, le, failed, ends) =
        attempts-settles attempt (suc max_retries) 0 (omega arith) (omega arith) in
      (n, settled, le, AllFail-intro attempt n (λ m lt. failed m (omega arith) lt), ends)

  producer_failed :
      (upload_result : Result (Unit {0}) (S3Error E)) (s : UploadWriterState) (error : IoError E)
      → s.upload_ended ≡ false
      → finish_upload_with_writer upload_result (ok (err error)) s
        ≡ err (upload_producer_failed error)
  unfolding finish_upload_with_writer
  producer_failed (ok done) s error alive = refl
  producer_failed (err s3_error) s error alive = if-false _ _ alive

  failed_for_good :
      (again : Option (Result (Unit {0}) (S3Error E) × ℕ)) (retries : ℕ) (error : IoError E)
      → after_attempt view max_retries again retries (err (upload_producer_failed error))
        ≡ some (err (upload_producer_failed error), suc retries)
  unfolding after_attempt is_retryable
  failed_for_good again retries error = ground arith

  -- A producer that fails by itself, while the upload was still running, ends the retrying upload with
  -- its own error after one attempt, however many retries are allowed.
  pub upload_with_writer_with_retries-producer :
      (upload : ℕ → Result (Unit {0}) (S3Error E))
      (produce : ℕ → Joined (Result (Unit {0}) (IoError E))) (state : ℕ → UploadWriterState)
      (error : IoError E)
      → produce 0 ≡ ok (err error)
      → (state 0).upload_ended ≡ false
      → upload_with_writer_with_retries view max_retries upload produce state
        ≡ some (err (upload_producer_failed error), 1)
  unfolding upload_with_writer_with_retries attempts
  upload_with_writer_with_retries-producer upload produce state error e alive =
      ap (after_attempt view max_retries _ 0) (
        ap (λ produced. finish_upload_with_writer (upload 0) produced (state 0)) e
        ∙ producer_failed (upload 0) (state 0) error alive)
      ∙ failed_for_good _ 0 error
