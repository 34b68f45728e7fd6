-- ===== src/Common.antt =====
-- What the other modules share: the libraries' names passed on, and the names of the children:
-- tests (Tests), lists over the native numbers (Lists), integers (Int), byte strings (Bytes),
-- ordered maps (OrdMap), computations that throw (Throwing),
-- and the rules of their loops (Loops).
mod Tests
mod Lists
pub mod Int
pub mod Bytes
pub mod OrdMap
pub mod Throwing
pub mod Loops
pub use Tests.*
pub use Lists.*
pub use Prim.Native.Nat.{ℕ, zero, suc, ◌+◌, ◌-◌, ◌*◌, ◌/◌, ◌%◌, ◌^◌, ◌≤◌, ◌<◌}
pub use mathlib.Core.Path.{◌≡◌, refl, sym, ap, ◌∙◌}
pub use mathlib.Core.Logic.{◌≢◌, ◌↔◌, ◌⊎◌, inl, inr}
pub use mathlib.Core.Bool.{Bool, true, false, ◌&&◌, ◌||◌, not}
pub use mathlib.Core.Option.{Option, none, some}
pub use mathlib.Core.List.{List, [], ◌∷◌, ◌++◌, map}
pub use native.Mathlib.Omega.{arith}
