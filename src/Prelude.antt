-- ===== src/Prelude.antt =====
-- Names that every component shares: the library's, passed on, tests on the native numbers, lists
-- measured by them, and unsigned 64-bit arithmetic.
mod Tests
mod Lists
mod Words
pub mod Results
pub mod Int
pub mod Bytes
pub use Tests.*
pub use Lists.*
pub use Words.{word, add64_exact, sub64_exact}
unfoldable pub use Words.{add64, sub64}
pub use Prim.Native.Nat.{ℕ, zero, suc, ◌+◌, ◌-◌, ◌*◌, ◌/◌, ◌%◌, ◌^◌, ◌≤◌, ◌<◌}
pub use Prim.Native.String.{String}
pub use mathlib.Core.Path.{◌≡◌, refl, sym, ap, ◌∙◌}
pub use mathlib.Core.Logic.{◌≢◌, ◌↔◌, ◌⊎◌, inl, inr}
pub use mathlib.Core.Bool.{Bool, true, false, not, ◌&&◌, ◌||◌}
pub use mathlib.Core.Option.{Option, none, some}
pub use mathlib.Core.List.{List, [], ◌∷◌, ◌++◌, map}
pub use native.Mathlib.Omega.{arith}
pub use text.Mathlib.Text.{◌==◌ as str_eq}
pub use text.Mathlib.TextEquality.{eq_iff}
