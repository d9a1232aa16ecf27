-- ===== src/Base.antt =====
-- The names that the other modules share.
pub mod Logic
pub mod Lists
pub mod Text
pub mod Decimal
pub mod Int
pub mod Space
pub mod Json
pub mod Sort
pub mod Results
pub mod Actions
pub mod Environment
pub use Prim.Native.Nat.{ℕ, zero, suc, ◌+◌, ◌-◌, ◌*◌, ◌/◌, ◌%◌, ◌^◌, ◌≤◌, ◌<◌}
pub use mathlib.Core.Path.{◌≡◌, refl, sym, ap, ◌∙◌}
pub use mathlib.Core.Logic.{◌≢◌, ◌↔◌, ◌⊎◌, inl, inr, ite, dite}
pub use mathlib.Core.Bool.{Bool, true, false, ◌&&◌, ◌||◌, not}
pub use mathlib.Core.Option.{Option, none, some}
pub use mathlib.Core.List.{List, [], ◌∷◌, ◌++◌, map, reverse, foldl}
pub use native.Mathlib.Omega.{arith}
unfoldable pub use Logic.*
unfoldable pub use Lists.*
unfoldable pub use Decimal.*
unfoldable pub use Text.*
unfoldable pub use Int.*
unfoldable pub use Json.*
unfoldable pub use Sort.*
unfoldable pub use Results.*
unfoldable pub use Actions.*
unfoldable pub use Environment.*
