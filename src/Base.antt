-- ===== src/Base.antt =====
-- What the modules share: names of the libraries, passed on, and those of the children below:
-- tests, lists over the native numbers, byte strings, results, 64-bit words.
mod Tests
mod Lists
mod Text
mod Outcome
mod Word
mod Decimal
mod Parse
mod Search
mod Utf8
mod Lossy
mod Int
pub use Tests.*
pub use Lists.*
unfoldable pub use Text.*
pub use Outcome.*
unfoldable pub use Word.*
unfoldable pub use Decimal.*
unfoldable pub use Parse.*
unfoldable pub use Search.*
unfoldable pub use Utf8.{is_utf8}
unfoldable pub use Lossy.{from_utf8_lossy}
unfoldable pub use Int.*
pub use Prim.Native.Nat.{ℕ, zero, suc, ◌+◌, ◌-◌, ◌*◌, ◌/◌, ◌%◌, ◌^◌, ◌≤◌, ◌<◌, min, max}
pub use mathlib.Core.Path.{◌≡◌, refl, sym, ap, subst, ◌∙◌}
pub use mathlib.Core.Logic.{◌≢◌, ◌↔◌, ◌⊎◌, inl, inr}
pub use mathlib.Core.Bool.{Bool, true, false, not, ◌&&◌, ◌||◌}
pub use mathlib.Core.Option.{Option, none, some}
pub use mathlib.Core.List.{List, [], ◌∷◌, ◌++◌, append_assoc, append-nil}
pub use native.Mathlib.Omega.{arith}
