-- ===== src/Base.antt =====
-- The names that every other module shares: the libraries', passed on, and those of the children
-- (Boolean tests, lists, integers, machine words, byte strings and finite maps).
mod Tests
mod Lists
mod Int
mod Word
mod Bytes
mod Table
pub use Tests.*
pub use Lists.*
pub use Int.*
pub use Word.*
unfoldable pub use Bytes.*
unfoldable pub use Table.*
pub use Prim.Native.Nat.{ℕ, zero, suc, ◌+◌, ◌-◌, ◌*◌, ◌/◌, ◌%◌, ◌^◌, ◌≤◌, ◌<◌, min, max}
pub use mathlib.Core.Path.{◌≡◌, refl, sym, ap, ◌∙◌, subst}
pub use mathlib.Core.Logic.{◌≢◌, ◌↔◌, ◌⊎◌, inl, inr}
pub use mathlib.Core.Bool.{Bool, true, false, not, ◌&&◌, ◌||◌}
pub use mathlib.Core.Option.{Option, none, some}
pub use mathlib.Core.List.{List, [], ◌∷◌, ◌++◌, map}
pub use native.Mathlib.Omega.{arith}
