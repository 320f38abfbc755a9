-- ===== src/Base.antt =====
-- The names that the other modules share: the libraries' names, passed on, and the children's
-- Boolean tests, lists over native numbers, Go maps, and the monad of API calls.
mod Tests
mod Lists
mod Maps
mod Effects
pub use Tests.*
pub use Lists.*
unfoldable pub use Maps.*
unfoldable pub use Effects.*
pub use Effects.Makes.*
pub use Effects.Keeps.*
pub use Effects.Returns.*
pub use Effects.Leads.*
pub use Prim.Native.Nat.{ℕ, zero, suc, ◌+◌, ◌-◌, ◌*◌, ◌≤◌, ◌<◌}
pub use Prim.Native.String.{String, ◌++◌ as ◌<>◌}
pub use mathlib.Core.Path.{◌≡◌, refl, sym, ap, subst, ◌∙◌}
pub use mathlib.Core.Logic.{◌≢◌, ◌↔◌, ◌⊎◌, inl, inr}
pub use mathlib.Core.Bool.{Bool, true, false, not, ◌&&◌, ◌||◌}
pub use mathlib.Core.Option.{Option, none, some}
pub use mathlib.Core.List.{List, [], ◌∷◌, ◌++◌, map, append_assoc, append-nil}
pub use native.Mathlib.Omega.{arith}
pub use text.Mathlib.Text.{◌==◌, starts_with}
pub use text.Mathlib.TextEquality.{eq_iff}
pub use text.Mathlib.TextPositions.{eq_refl}
