-- ===== src/Base.antt =====
-- The names that the other modules share: the libraries', passed on, and those of the children.
mod Tests
mod Lists
mod Table
mod Int
mod BitOr
pub use Tests.*
pub use Lists.*
unfoldable pub use Table.{find_from, for_range, map_range}
pub use Table.{
  update, update_self, update-ne, Found, find_from-Found, find_from-first, find_from-some,
  find_from-none, for_range-keeps, map_range-inside, map_range-outside,
}
pub use Int.{ℤ, pos, negsuc, minus_one, minus_two, to_int, is_neg, diff, to_u32}
pub use BitOr.{bit_or-zero, bit_or-one, bit_or_two, bit_or_four, bit_or_six}
pub use Prim.Native.Nat.{bit_or, ℕ, zero, suc, ◌+◌, ◌-◌, ◌*◌, ◌/◌, ◌%◌, ◌^◌, ◌≤◌, ◌<◌, min, max}
pub use mathlib.Core.Path.{◌≡◌, refl, sym, ap, ap₂, ◌∙◌, subst, fun_ext}
pub use mathlib.Core.Logic.{◌≢◌, ◌↔◌, ◌⊎◌, inl, inr}
pub use mathlib.Core.Bool.{Bool, true, false, not, ◌&&◌, ◌||◌}
pub use mathlib.Core.Option.{Option, none, some}
pub use mathlib.Core.List.{List, [], ◌∷◌, ◌++◌, map, append-nil, append_assoc}
pub use native.Mathlib.Omega.{arith}
