-- ===== src/Base.antt =====
-- Names that the other modules share: the library's, passed on, and the Boolean tests, the results
-- and the searches that the models are written with.
mod Tests
mod Lists
mod Clock
pub mod Table
pub mod Json
pub mod Dicts
pub mod Result
pub mod Action
pub use Lists.*
pub use Clock.*
unfoldable pub use Tests.{String_discrete, Option-discrete, List-discrete}
pub use Tests.{
  ltb, leb, nat_beq, nat_beq_iff, if◌then◌else◌, Eq, ◌==◌, ◌!=◌, nat_eq, string_eq, bool_eq,
  is_some, Bool-cases, Option-cases, dec_beq, dec_beq_iff, discrete_eq, list_eq, not-eq-false,
  or-eq-false, and-eq-true, ne-eq-false, ne2-eq-false, iff_trans, some_inj,
}
pub use Prim.Native.Nat.{ℕ, zero, suc, ◌+◌, ◌-◌, ◌*◌, ◌/◌, ◌%◌, ◌≤◌, ◌<◌, min, max}
pub use Prim.Native.String.{String}
pub use mathlib.Core.Path.{◌≡◌, refl, sym, ap, ◌∙◌, subst}
pub use mathlib.Core.Logic.{◌≢◌, ◌↔◌, ◌⊎◌, inl, inr}
pub use mathlib.Core.Bool.{Bool, true, false, not, ◌&&◌, ◌||◌}
pub use mathlib.Core.Option.{Option, none, some}
pub use mathlib.Core.List.{List, [], ◌∷◌, ◌++◌, map}
pub use native.Mathlib.Omega.{arith}
unfoldable pub use native.Mathlib.Decide.{ℕ_discrete}
