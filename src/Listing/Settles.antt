-- ===== src/Listing/Settles.antt =====
-- A loop of src/list_objects.rs that comes to an end, and how its parts do.
use my_s.Base.{
  ℕ, ◌<◌, ◌≤◌, ◌≡◌, refl, sym, subst, Option, none, some, Bytes, Result, ok, err, arith,
}
use my_s.Error.{S3Error}
use my_s.Xml.Walker.Forward.{ChildWithin}
use my_s.Listing.Loops.{Run, then_text, then_run, each_child}

module _ {R : Type 0} (left : R → ℕ) where
  abbrev pub Good : {E A : Type 0} → (A → Type 0) → ℕ → Result (A × R) (S3Error E) → Type 0
  Good P n (ok (a, reader)) = (left reader ≤ n) × P a
  Good P n (err error) = Unit {0}

  -- A loop that comes to an end, no further back than `n`, with a value that is `P`.
  abbrev pub Settles : {E A : Type 0} → (A → Type 0) → ℕ → Run E R A → Type 0
  Settles {E} {A} P n run =
      (outcome : Result (A × R) (S3Error E)) × (run ≡ some outcome) × Good P n outcome

  pub Settles-le :
      {E A : Type 0} (P : A → Type 0) (m n : ℕ) (run : Run E R A)
      → m ≤ n
      → Settles P m run
      → Settles P n run
  Settles-le P m n run le (err error, e, good) = (err error, e, tt)
  Settles-le P m n run le (ok (a, r), e, (at, p)) = (ok (a, r), e, (omega arith, p))

  pub settle-child :
      {E A T : Type 0} (P : A → Type 0) (n : ℕ) (o : Option (Result (Option T × R) Bytes))
      (outcome : Result (Option T × R) Bytes) (stop : R → Run E R A) (k : T → R → Run E R A)
      → o ≡ some outcome
      → ChildWithin left n outcome
      → ((r : R) → left r ≤ n → Settles P n (stop r))
      → ((t : T) (r : R) → left r < n → Settles P n (k t r))
      → Settles P n (each_child o stop k)
  settle-child {T = T} P n o outcome stop k e within stops goes =
      subst (λ x. Settles P n (each_child x stop k)) (sym e) (go outcome within)
    where
      go :
          (x : Result (Option T × R) Bytes)
          → ChildWithin left n x
          → Settles P n (each_child (some x) stop k)
      go (err error) w = (_, refl, tt)
      go (ok (none, r)) w = stops r w
      go (ok (some t, r)) w = goes t r w

  pub settle-text :
      {E A : Type 0} (P : A → Type 0) (n : ℕ) (t : Result (Bytes × R) Bytes)
      (k : Bytes → R → Run E R A)
      → ((v : Bytes) (r : R) → t ≡ ok (v, r) → Settles P n (k v r))
      → Settles P n (then_text t k)
  settle-text P n (ok (v, r)) k goes = goes v r refl
  settle-text P n (err error) k goes = (_, refl, tt)

  pub settle-run :
      {E A B : Type 0} (P : A → Type 0) (Q : B → Type 0) (n m : ℕ) (run : Run E R A)
      (k : A → R → Run E R B)
      → Settles P n run
      → ((a : A) (r : R) → left r ≤ n → P a → Settles Q m (k a r))
      → Settles Q m (then_run run k)
  settle-run {E = E} {A = A} P Q n m run k (outcome, e, good) goes =
      subst (λ x. Settles Q m (then_run x k)) (sym e) (go outcome good)
    where
      go : (x : Result (A × R) (S3Error E)) → Good P n x → Settles Q m (then_run (some x) k)
      go (err error) g = (_, refl, tt)
      go (ok (a, r)) (le, p) = goes a r le p
