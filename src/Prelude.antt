-- ===== src/Prelude.antt =====
-- The names that the other modules share: the libraries', passed on, and those of the children.
mod Tests
mod Words
mod Lists
mod Drop
mod Sorting
pub mod Int
pub mod Assoc
pub mod Bits
pub mod Digits
pub mod Text
pub mod Bytes
pub use Tests.*
unfoldable pub use Words.{add_u32, add_u64, saturating_add_u32}
pub use Words.{u32_mod, u64_mod, add_u32_lem, add_u64_lem}
pub use Lists.*
pub use Drop.*
unfoldable pub use Sorting.{insert_by, sort_by}
pub use Sorting.{All-sort_by, any_of-insert_by, any_of-sort_by, length-insert_by}
pub use Prim.Native.Nat.{ℕ, zero, suc, ◌+◌, ◌-◌, ◌*◌, ◌/◌, ◌%◌, ◌^◌, ◌≤◌, ◌<◌, min, max}
pub use Prim.Native.String.{String}
pub use mathlib.Core.Path.{◌≡◌, refl, sym, ap, ◌∙◌, subst}
pub use mathlib.Core.Logic.{◌≢◌, ◌↔◌, ◌⊎◌, inl, inr}
pub use mathlib.Core.Bool.{Bool, true, false, not, ◌&&◌, ◌||◌}
pub use mathlib.Core.Option.{Option, none, some}
pub use mathlib.Core.List.{List, [], ◌∷◌, ◌++◌, map, append-nil, append_assoc}
pub use native.Mathlib.Omega.{arith}
unfoldable pub use native.Mathlib.Decide.{dec_lt, ℕ_discrete}
