-- ===== src/Prelude.antt =====
-- The names that the other modules share: the libraries', passed on, and those of the children
-- (Boolean tests, lists and arrays over the native numbers, machine words).
mod Tests
mod Lists
mod Arrays
mod Vectors
mod Words
mod Slices
mod Fields
mod Signed
mod Bytes
mod Bits
mod Sorted
pub use Tests.*
pub use Lists.*
pub use Arrays.*
pub use Bits.*
unfoldable pub use Slices.*
unfoldable pub use Vectors.*
unfoldable pub use Signed.*
unfoldable pub use Fields.*
unfoldable pub use Bytes.*
unfoldable pub use Words.*
unfoldable pub use Sorted.*
pub use Prim.Native.Nat.{ℕ, zero, suc, ◌+◌, ◌-◌, ◌*◌, ◌/◌, ◌%◌, ◌^◌, ◌≤◌, ◌<◌, min, max}
pub use mathlib.Core.Path.{◌≡◌, refl, sym, ap, ap₂, subst, ◌∙◌, fun_ext}
pub use mathlib.Core.Logic.{◌≢◌, ◌↔◌, ◌⊎◌, inl, inr}
pub use mathlib.Core.Bool.{Bool, true, false, not, ◌&&◌, ◌||◌}
pub use mathlib.Core.Option.{Option, none, some}
pub use mathlib.Core.List.{List, [], ◌∷◌, ◌++◌, map, reverse, append-nil, append_assoc}
pub use mathlib.Core.List.{map-append, reverse-cons, foldl, foldl-append}
pub use native.Mathlib.Omega.{arith}
