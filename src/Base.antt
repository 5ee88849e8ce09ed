-- ===== src/Base.antt =====
-- Names shared by every module: the library names in use, the tests on numbers, the results of
-- fallible functions, text, numerals in text and maps with text keys.
mod Tests
mod Outcome
mod Str
pub mod Digits
pub mod Map
pub mod Sort
pub mod Shown
pub mod Files
pub use Tests.*
pub use Outcome.*
unfoldable pub use Str.*
pub use Prim.Native.Nat.{ℕ, zero, suc, ◌+◌, ◌-◌, ◌*◌, ◌/◌, ◌%◌, ◌^◌, ◌≤◌, ◌<◌}
pub use Prim.Native.String.{String}
pub use mathlib.Core.Path.{◌≡◌, refl, sym, ap, ◌∙◌}
pub use mathlib.Core.Logic.{◌≢◌, ◌↔◌, ◌⊎◌, inl, inr}
pub use mathlib.Core.Bool.{Bool, true, false, not, ◌&&◌, ◌||◌}
pub use mathlib.Core.Option.{Option, none, some}
pub use mathlib.Core.List.{List, [], ◌∷◌, ◌++◌, map}
pub use native.Mathlib.Omega.{arith}
