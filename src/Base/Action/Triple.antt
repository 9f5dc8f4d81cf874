-- ===== src/Base/Action/Triple.antt =====
-- What a call does to its state: a relation that it stays within, and conditions before and after.
use mathlib.Core.Bool.{Bool, true, false}
use pay_ops.Base.Result.{Result, Error, ok, err}
use pay_ops.Base.Action.{Exec, pure, raise, lift, guard, and_then, ◌>>=◌, try_except}

pub record IsPreorder {S : Type 0} (R : S → S → Type 0) : Type 0 where
  pub same : (s : S) → R s s
  pub chain : (s t u : S) → R s t → R t u → R s u

-- Every call of `m` moves the state along `R`, whether it returns or raises.
pub record Within {S A : Type 0} (R : S → S → Type 0) (m : Exec S A) : Type 0 where
  pub at : (s : S) → R s (m s).1

module _ {S : Type 0} {R : S → S → Type 0} (order : IsPreorder R) where
  pub Within-pure : {A : Type 0} (a : A) → Within R (pure a)
  unfolding pure
  Within-pure a = record { at = order.same }

  pub Within-raise : {A : Type 0} (e : Error) → Within R (raise {A = A} e)
  unfolding raise
  Within-raise e = record { at = order.same }

  pub Within-lift : {A : Type 0} (r : Result A) → Within R (lift r)
  unfolding lift
  Within-lift r = record { at = order.same }

  pub Within-guard : (b : Bool) (e : Error) → Within R (guard b e)
  unfolding guard
  Within-guard true e = record { at = order.same }
  Within-guard false e = record { at = order.same }

  pub Within-bind :
      {A B : Type 0} (m : Exec S A) (f : A → Exec S B)
      → Within R m
      → ((a : A) → Within R (f a))
      → Within R (m >>= f)
  unfolding ◌>>=◌
  Within-bind {A} {B} m f hm hf = record {
    at = λ s. let (r, s') = m s in order.chain s s' _ (hm.at s) (rest r s');
  }
    where
      rest : (r : Result A) (s' : S) → R s' (and_then r f s').1
      rest (ok a) s' = (hf a).at s'
      rest (err e) s' = order.same s'

-- What holds after a call that returned, and after one that raised.
abbrev pub Holds : {S A : Type 0} → (A → S → Type 0) → (S → Type 0) → Result A × S → Type 0
Holds Q E (ok a, s) = Q a s
Holds Q E (err e, s) = E s

pub record Triple {S A : Type 0} (P : S → Type 0) (m : Exec S A) (Q : A → S → Type 0)
    (E : S → Type 0) : Type 0 where
  pub at : (s : S) → P s → Holds Q E (m s)

module _ {S A : Type 0} where
  -- A condition that `R` preserves is kept by every call within `R`.
  pub Triple-Within :
      (R : S → S → Type 0) (P : S → Type 0) (m : Exec S A)
      → ((s t : S) → R s t → P s → P t)
      → Within R m
      → Triple P m (λ _. P) P
  Triple-Within R P m stable h = record { at = λ s p. split (m s) (stable s (m s).1 (h.at s) p) }
    where
      split : (x : Result A × S) → P x.1 → Holds (λ _. P) P x
      split (ok a, s) p = p
      split (err e, s) p = p

  -- A weaker condition on the way out by an exception.
  pub Triple-weaken :
      (P P' : S → Type 0) (m : Exec S A) (Q Q' : A → S → Type 0) (E E' : S → Type 0)
      → Triple P m Q E
      → ((s : S) → P' s → P s)
      → ((a : A) (s : S) → Q a s → Q' a s)
      → ((s : S) → E s → E' s)
      → Triple P' m Q' E'
  Triple-weaken P P' m Q Q' E E' h before after raised = record {
    at = λ s p. split (m s) (h.at s (before s p));
  }
    where
      split : (x : Result A × S) → Holds Q E x → Holds Q' E' x
      split (ok a, s) p = after a s p
      split (err e, s) p = raised s p

  pub Triple-try :
      (P : S → Type 0) (caught : Error → Bool) (body : Exec S A) (handler : Error → Exec S A)
      (Q : A → S → Type 0) (H E : S → Type 0)
      → Triple P body Q H
      → ((e : Error) → Triple H (handler e) Q E)
      → ((s : S) → H s → E s)
      → Triple P (try_except caught body handler) Q E
  unfolding try_except
  Triple-try P caught body handler Q H E hb hh weaker = record {
    at = λ s p. split (body s) (hb.at s p);
  }
    where
      handle :
          (b : Bool) (e : Error) (s : S)
          → H s
          → Holds Q E (elim b [ true ↦ handler e s | false ↦ (err e, s) ])
      handle true e s h = (hh e).at s h
      handle false e s h = weaker s h

      split :
          (x : Result A × S)
          → Holds Q H x
          → Holds Q E (elim x.0 [
            | ok a ↦ (ok a, x.1)
            | err e ↦ elim (caught e) [ true ↦ handler e x.1 | false ↦ (err e, x.1) ]
          ])
      split (ok a, s) q = q
      split (err e, s) h = handle (caught e) e s h

module _ {S A B : Type 0} where
  pub Triple-bind :
      (P : S → Type 0) (m : Exec S A) (f : A → Exec S B) (M : A → S → Type 0) (Q : B → S → Type 0)
      (E : S → Type 0)
      → Triple P m M E
      → ((a : A) → Triple (M a) (f a) Q E)
      → Triple P (m >>= f) Q E
  unfolding ◌>>=◌
  Triple-bind P m f M Q E hm hf = record { at = λ s p. rest (m s) (hm.at s p) }
    where
      rest : (x : Result A × S) → Holds M E x → Holds Q E (and_then x.0 f x.1)
      rest (ok a, s) p = (hf a).at s p
      rest (err e, s) p = p
