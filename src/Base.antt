-- ===== src/Base.antt =====
-- Shared vocabulary: the library's names passed on, and helpers of the children.
mod Tests
mod Arrays
pub mod Word
unfoldable pub use Tests.{all_below}
pub use Tests.{
  ltb, ltb-eq-false, leb, ◌==◌, if◌then◌else◌, Bool-cases, ==_iff, le_or_lt, all_below_sound,
}
pub use Arrays.*
pub use Prim.Native.Nat.{
  ℕ, zero, suc, ◌+◌, ◌-◌, ◌*◌, ◌/◌, ◌%◌, ◌^◌, ◌≤◌, ◌<◌, min, max, bit_and, bit_or, bit_xor,
}
pub use mathlib.Core.Path.{◌≡◌, refl, sym, ap, ap₂, subst, ◌∙◌}
pub use mathlib.Core.Logic.{◌≢◌, ◌↔◌, ◌⊎◌, inl, inr}
pub use mathlib.Core.Bool.{Bool, true, false, not, ◌&&◌, ◌||◌}
pub use mathlib.Core.Option.{Option, none, some}
pub use mathlib.Core.List.{List, [], ◌∷◌, ◌++◌}
pub use native.Mathlib.Omega.{arith}
