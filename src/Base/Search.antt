-- ===== src/Base/Search.antt =====
-- Searches in byte strings: `position` of a byte, `starts_with`, the window of `contains`.
use Prim.Native.Nat.{ℕ}
use mathlib.Core.Path.{◌≡◌, refl}
use mathlib.Core.Bool.{Bool, true, false, ◌&&◌, ◌||◌}
use mathlib.Core.Option.{Option, none, some}
use mathlib.Core.List.{[], ◌∷◌, ◌++◌}
use native.Mathlib.Omega.{arith}
use mathlib.Core.Logic.{inl, inr}
use my_s.Base.Tests.{◌==◌, if◌then◌else◌, Bool-cases}
use my_s.Base.Text.{Bytes}

unfoldable pub put_in_front : ℕ → Option (Bytes × Bytes) → Option (Bytes × Bytes)
put_in_front c none = none
put_in_front c (some (before, after)) = some (c ∷ before, after)

-- What stands before the first `b`, and what stands behind it.
unfoldable pub split_at : ℕ → Bytes → Option (Bytes × Bytes)
unfolding put_in_front
split_at b [] = none
split_at b (c ∷ s) = if c == b then some ([], s) else put_in_front c (split_at b s)

unfoldable pub starts_with : Bytes → Bytes → Bool
starts_with [] s = true
starts_with (c ∷ p) [] = false
starts_with (c ∷ p) (d ∷ s) = c == d && starts_with p s

-- Some window of the haystack is the needle.
unfoldable pub contains : Bytes → Bytes → Bool
unfolding starts_with
contains needle [] = starts_with needle []
contains needle (c ∷ s) = starts_with needle (c ∷ s) || contains needle s

-- A text without the byte.
abbrev pub Lacks : ℕ → Bytes → Type 0
Lacks b [] = Unit {0}
Lacks b (c ∷ s) = (c ≡ b → ⊥) × Lacks b s

pub split_at-append :
    (b : ℕ) (before after : Bytes)
    → Lacks b before
    → split_at b (before ++ b ∷ after) ≡ some (before, after)
unfolding split_at
split_at-append b [] after h = ground arith
split_at-append b (c ∷ before) after (ne, h) = ground (arith, split_at-append b before after h)

pub split_at-Lacks : (b : ℕ) (s : Bytes) → Lacks b s → split_at b s ≡ none
unfolding split_at
split_at-Lacks b [] h = refl
split_at-Lacks b (c ∷ s) (ne, h) = ground (arith, split_at-Lacks b s h)

-- What is found spells the text, and the part before holds no `b`.
pub split_at-some :
    (b : ℕ) (s before after : Bytes)
    → split_at b s ≡ some (before, after)
    → (s ≡ before ++ b ∷ after) × Lacks b before
unfolding split_at
split_at-some b [] before after e = cc
split_at-some b (c ∷ s) [] after e = ground (arith)
split_at-some b (c ∷ s) (d ∷ before) after e = ground (arith, split_at-some b s before after)

pub split_at-cons :
    (b c : ℕ) (s : Bytes) → (c ≡ b → ⊥) → split_at b (c ∷ s) ≡ put_in_front c (split_at b s)
unfolding split_at
split_at-cons b c s ne = ground arith

-- Where no such byte is found there is none.
pub split_at-none : (b : ℕ) (s : Bytes) → split_at b s ≡ none → Lacks b s
unfolding split_at
split_at-none b [] e = tt
split_at-none b (c ∷ s) e = elim (Bool-cases (c == b)) [
  | inl same ↦ ground arith
  | inr other ↦ ((λ same. ground arith), split_at-none b s (ground arith))
]
