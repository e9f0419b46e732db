-- ===== src/Common.antt =====
-- The names that the models of sylar/ share: those of the libraries, passed on, and those of the
-- children (tests on numbers, lists measured by native numbers, machine words, results).
mod Tests
mod Lists
mod Words
mod Outcome
mod Heap
mod Names
mod Branches
pub mod Bits
pub use Tests.*
pub use Lists.*
pub use Words.*
pub use Outcome.*
pub use Heap.*
pub use Names.*
pub use Branches.*
pub use Prim.Native.Nat.{ℕ, zero, suc, ◌+◌, ◌-◌, ◌*◌, ◌/◌, ◌%◌, ◌^◌, ◌≤◌, ◌<◌, min}
pub use Prim.Native.Nat.{bit_and, bit_or, bit_xor}
pub use mathlib.Core.Path.{◌≡◌, refl, sym, ap, ap₂, ◌∙◌}
pub use mathlib.Core.Logic.{◌≢◌, ◌↔◌, ◌⊎◌, inl, inr}
pub use mathlib.Core.Bool.{Bool, true, false, not, ◌&&◌, ◌||◌}
pub use mathlib.Core.Option.{Option, none, some}
pub use mathlib.Core.List.{List, [], ◌∷◌, ◌++◌, map, reverse}
pub use native.Mathlib.Omega.{arith}
