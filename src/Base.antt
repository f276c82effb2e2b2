-- ===== src/Base.antt =====
-- What the modules share: names of the libraries passed on, tests on native numbers, lists,
-- bit operations, and the outcome of code that can throw.
mod Tests
mod Lists
pub mod Bits
mod Order
mod Text
mod Effects
pub use Tests.*
unfoldable pub use Order.{lt_wf}
pub use Lists.*
pub use Effects.*
pub use Text.*
pub use Prim.Native.Nat.{
  ℕ, zero, suc, ◌+◌, ◌-◌, ◌*◌, ◌/◌, ◌%◌, ◌^◌, ◌≤◌, ◌<◌, min, bit_and, bit_or, bit_xor,
}
pub use mathlib.Core.Path.{◌≡◌, refl, sym, ap, ◌∙◌}
pub use mathlib.Core.Logic.{◌≢◌, ◌↔◌, ◌⊎◌, inl, inr}
pub use mathlib.Core.Bool.{Bool, true, false, not, ◌&&◌, ◌||◌}
pub use mathlib.Core.Option.{Option, none, some}
pub use mathlib.Core.List.{List, [], ◌∷◌, ◌++◌, map, append_assoc, append-nil}
pub use native.Mathlib.Omega.{arith}
