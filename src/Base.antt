-- ===== src/Base.antt =====
-- The names that the other modules share: the libraries', passed on, and those of the children.
mod Tests
mod Lists
mod Text
mod Int
mod Sets
mod Loops
pub use Tests.*
pub use Lists.*
pub use Int.*
pub use Sets.*
pub use Loops.*
pub use Prim.Native.Nat.{ℕ, zero, suc, ◌+◌, ◌-◌, ◌*◌, ◌/◌, ◌%◌, ◌^◌, ◌≤◌, ◌<◌}
pub use Prim.Native.String.{String}
pub use mathlib.Core.Path.{◌≡◌, refl, sym, ap, ◌∙◌, subst}
pub use mathlib.Core.Logic.{◌≢◌, ◌↔◌, ◌⊎◌, inl, inr}
pub use mathlib.Core.Bool.{Bool, true, false, not, ◌&&◌, ◌||◌}
pub use mathlib.Core.Option.{Option, none, some}
pub use mathlib.Core.List.{List, [], ◌∷◌, ◌++◌, map, reverse, append-nil, append_assoc}
pub use native.Mathlib.Omega.{arith}
pub use Text.{Bytes, codes, bytes_eq_iff, bytes_eq-other, bytes_eq_comm}
unfoldable pub use Int.{int_ltb, ◌+ℤ◌, int64}
unfoldable pub use Loops.{times}
unfoldable pub use Sets.{has, without, without_all}
unfoldable pub use Text.{bytes_eq, strip_prefix}
