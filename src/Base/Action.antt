-- ===== src/Base/Action.antt =====
-- Calls that read and write a state and may raise. The state outlives an exception.
pub mod Triple
use mathlib.Core.Bool.{Bool, true, false}
use pay_ops.Base.Result.{Result, Error, ok, err}

abbrev pub Exec : Type 0 → Type 0 → Type 0
Exec S A = S → Result A × S

module _ {S A : Type 0} where
  pub pure : A → Exec S A
  pure a s = (ok a, s)

  pub raise : Error → Exec S A
  raise e s = (err e, s)

  -- A call that touches no state.
  pub lift : Result A → Exec S A
  lift r s = (r, s)

module _ {S : Type 0} where
  -- `if bad: raise e`
  pub guard : Bool → Error → Exec S (Unit {0})
  guard true e s = (err e, s)
  guard false e s = (ok tt, s)

module _ {S A B : Type 0} where
  abbrev pub and_then : Result A → (A → Exec S B) → Exec S B
  and_then (ok a) f s = f a s
  and_then (err e) f s = (err e, s)

  infixl 5 ◌>>=◌ ◌>>◌
  -- Opening this opens the other ways to build a call.
  unfoldable pub ◌>>=◌ : Exec S A → (A → Exec S B) → Exec S B
  unfolding pure raise lift guard
  ◌>>=◌ m f s = let (r, s') = m s in and_then r f s'

  abbrev pub ◌>>◌ : Exec S A → Exec S B → Exec S B
  m >> k = m >>= λ _. k

module _ {S A : Type 0} where
  -- `try: body` / `except E: handler`, for the exceptions that `caught` accepts.
  pub try_except : (Error → Bool) → Exec S A → (Error → Exec S A) → Exec S A
  try_except caught body handler s =
      let (r, s') = body s in
      elim r [
        | ok a ↦ (ok a, s')
        | err e ↦ elim (caught e) [ true ↦ handler e s' | false ↦ (err e, s') ]
      ]
