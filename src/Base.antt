-- ===== src/Base.antt =====
-- The names that the components share: the libraries', passed on, and those of the children:
-- tests and the conditional (Tests), lists measured by native numbers (Lists), machine words (Words).
mod Tests
mod Lists
mod Words
pub mod Bits
pub mod Int
pub mod Text
pub use Tests.*
pub use Lists.*
pub use Words.{u64_mod, Bytes}
unfoldable pub use Words.{add64, sub64, bytes_discrete}
pub use Prim.Native.Nat.{ℕ, zero, suc, ◌+◌, ◌-◌, ◌*◌, ◌/◌, ◌%◌, ◌^◌, ◌≤◌, ◌<◌, min}
pub use mathlib.Core.Path.{◌≡◌, refl, sym, ap, ap₂, subst, ◌∙◌}
pub use mathlib.Core.Logic.{◌≢◌, ◌↔◌, ◌⊎◌, inl, inr}
pub use mathlib.Core.Bool.{Bool, true, false, not, ◌&&◌, ◌||◌}
pub use mathlib.Core.Option.{Option, none, some}
pub use mathlib.Core.List.{List, [], ◌∷◌, ◌++◌, map, append-nil, append_assoc}
pub use native.Mathlib.Omega.{arith}
pub use mathlib.Core.Logic.{ite, if_pos, if_neg}
unfoldable pub use native.Mathlib.Decide.{ℕ_discrete}
