-- ===== src/Prelude.antt =====
-- Names that the other modules share: the libraries' names in use, Boolean tests, lists over the
-- native numbers, decidable equality as an interface, and Python's dict as an association list.
mod Tests
mod Lists
mod Eq
pub mod Dict
pub mod Set
pub mod Sort
mod Results
pub use Tests.*
pub use Lists.*
pub use Results.*
pub use Eq.{HasEq, eq_refl, eq_sym, nat_eq, list_eq, pair_eq, Text, codes, text_eq_iff}
unfoldable pub use Eq.{◌==◌, list_beq, pair_beq}
pub use Prim.Native.Nat.{ℕ, zero, suc, ◌+◌, ◌-◌, ◌*◌, ◌/◌, ◌%◌, ◌^◌, ◌≤◌, ◌<◌, min, max}
pub use mathlib.Core.Path.{◌≡◌, refl, sym, ap, ◌∙◌}
pub use mathlib.Core.Logic.{◌≢◌, ◌↔◌, ◌⊎◌, inl, inr}
pub use mathlib.Core.Bool.{Bool, true, false, ◌&&◌, ◌||◌, not}
pub use mathlib.Core.Option.{Option, none, some}
pub use mathlib.Core.List.{List, [], ◌∷◌, ◌++◌, map, append-nil, append_assoc}
pub use native.Mathlib.Omega.{arith}
