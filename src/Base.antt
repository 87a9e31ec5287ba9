-- ===== src/Base.antt =====
-- The names that the modules of this library share: the libraries' names, passed on, with the
-- Boolean tests, the byte strings and the error results of the children.
mod Tests
mod Lists
mod Sublists
mod Strings
mod Outcome
pub mod Action
pub use Tests.*
pub use Lists.*
pub use Sublists.*
unfoldable pub use Strings.*
pub use Outcome.*
pub use Prim.Native.Nat.{ℕ, zero, suc, ◌+◌, ◌-◌, ◌*◌, ◌/◌, ◌%◌, ◌^◌, ◌≤◌, ◌<◌}
pub use Prim.Native.String.{String}
pub use mathlib.Core.Path.{◌≡◌, refl, sym, ap, ◌∙◌, subst}
pub use mathlib.Core.Logic.{◌≢◌, ◌↔◌, ◌⊎◌, inl, inr}
pub use mathlib.Core.Bool.{Bool, true, false, ◌&&◌, ◌||◌, not}
pub use mathlib.Core.Option.{Option, none, some}
pub use mathlib.Core.List.{List, [], ◌∷◌, ◌++◌, map, append-nil, append_assoc}
pub use native.Mathlib.Omega.{arith}
