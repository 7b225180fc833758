-- ===== src/Base/Decimal.antt =====
-- `u64` as decimal text: what `format!` prints for `{}`.
use Prim.Native.Nat.{ℕ, zero, suc, ◌+◌, ◌/◌, ◌%◌}
use mathlib.Core.List.{[], ◌∷◌}
use my_s.Base.Tests.{ltb, if◌then◌else◌}
use my_s.Base.Text.{Bytes}

-- The digits of a number in front of `out`, at most as many as the fuel.
unfoldable pub digits : ℕ → ℕ → Bytes → Bytes
digits zero n out = out
digits (suc f) n out =
    let more = digits f (n / 10) ((b'0' + n % 10) ∷ out) in
    if ltb n 10 then (b'0' + n) ∷ out else more

-- A `u64` has at most twenty digits.
unfoldable pub decimal : ℕ → Bytes
unfolding digits
decimal n = digits 20 n []
