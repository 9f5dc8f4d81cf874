-- ===== src/Base/Lists.antt =====
-- Lists measured by native numbers, and the searches that the program runs on its collections.
use Prim.Native.Nat.{ℕ, suc, ◌+◌}
use mathlib.Core.Path.{◌≡◌, refl}
use mathlib.Core.Logic.{◌↔◌, ◌⊎◌}
use mathlib.Core.Bool.{Bool, true, false, ◌&&◌, ◌||◌, not}
use mathlib.Core.Option.{Option, none, some}
use mathlib.Core.List.{List, [], ◌∷◌, ◌++◌}
use native.Mathlib.Omega.{arith}
use pay_ops.Base.Tests.{Eq, ◌==◌, if◌then◌else◌}

module _ {ℓ} {A : Type ℓ} where
  abbrev pub length : List A → ℕ
  length [] = 0
  length (x ∷ xs) = suc (length xs)

  -- `sum(f(x) for x in xs)`
  abbrev pub sum_of : (A → ℕ) → List A → ℕ
  sum_of f [] = 0
  sum_of f (x ∷ xs) = f x + sum_of f xs

  abbrev pub any : (A → Bool) → List A → Bool
  any p [] = false
  any p (x ∷ xs) = p x || any p xs

  abbrev pub all : (A → Bool) → List A → Bool
  all p [] = true
  all p (x ∷ xs) = p x && all p xs

  -- `next((x for x in xs if p(x)), None)`
  abbrev pub find : (A → Bool) → List A → Option A
  find p [] = none
  find p (x ∷ xs) = if p x then some x else find p xs

  pub length-append : (xs ys : List A) → length (xs ++ ys) ≡ length xs + length ys
  length-append [] ys = omega arith
  length-append (x ∷ xs) ys = omega (arith, length-append xs ys)

module _ {ℓ} {A : Type ℓ} ⦃e : Eq A⦄ where
  -- `x in xs`
  abbrev pub contains : A → List A → Bool
  contains x [] = false
  contains x (y ∷ ys) = x == y || contains x ys

  -- `len(set(xs)) == len(xs)`
  abbrev pub distinct : List A → Bool
  distinct [] = true
  distinct (x ∷ xs) = not (contains x xs) && distinct xs

-- Membership and distinctness as statements.
abbrev pub In : {A : Type 0} → A → List A → Type 0
In x [] = ⊥
In x (y ∷ ys) = (x ≡ y) ⊎ In x ys

abbrev pub All {ℓ κ} : {A : Type ℓ} → (A → Type κ) → List A → Type κ
All P [] = Unit
All P (x ∷ xs) = P x × All P xs

abbrev pub IsDistinct : {A : Type 0} → List A → Type 0
IsDistinct [] = Unit
IsDistinct (x ∷ xs) = (¬ In x xs) × IsDistinct xs

module _ {A : Type 0} ⦃e : Eq A⦄ where
  pub contains_iff : (x : A) (xs : List A) → (contains x xs ≡ true) ↔ In x xs
  contains_iff x [] = (λ h. absurd (cc), λ h. absurd h)
  contains_iff x (y ∷ ys) = ground (arith, e.beq_iff x y, contains_iff x ys)

  pub distinct_iff : (xs : List A) → (distinct xs ≡ true) ↔ IsDistinct xs
  distinct_iff [] = (λ h. tt, λ h. refl)
  distinct_iff (x ∷ xs) = ground (arith, contains_iff x xs, distinct_iff xs)

-- `if test: return reason`, one after the other.
abbrev pub first_reason {ℓ} : {A : Type ℓ} → List (Bool × A) → Option A
first_reason [] = none
first_reason ((test, reason) ∷ rest) = if test then some reason else first_reason rest

abbrev pub NoneHolds {ℓ} : {A : Type ℓ} → List (Bool × A) → Type 0
NoneHolds [] = Unit
NoneHolds ((test, reason) ∷ rest) = (test ≡ false) × NoneHolds rest

pub first_reason_iff {ℓ} :
    {A : Type ℓ} (checks : List (Bool × A)) → (first_reason checks ≡ none) ↔ NoneHolds checks
first_reason_iff [] = (λ _. tt, λ _. refl)
first_reason_iff ((true, reason) ∷ rest) = (λ h. absurd (cc), λ h. absurd (cc))
first_reason_iff ((false, reason) ∷ rest) =
    let ih = first_reason_iff rest in (λ h. (refl, ih.0 h), λ h. ih.1 h.1)

module _ {ℓ κ μ} {A : Type ℓ} {P : A → Type κ} {Q : A → Type μ} where
  pub All-map_iff : (xs : List A) → ((x : A) → P x ↔ Q x) → All P xs ↔ All Q xs
  All-map_iff [] e = (λ _. tt, λ _. tt)
  All-map_iff (x ∷ xs) e =
      let ih = All-map_iff xs e in (λ h. ((e x).0 h.0, ih.0 h.1), λ h. ((e x).1 h.0, ih.1 h.1))

module _ {ℓ} {A : Type ℓ} where
  pub any-eq-false : (p : A → Bool) (xs : List A) → (any p xs ≡ false) ↔ All (λ x. p x ≡ false) xs
  any-eq-false p [] = (λ _. tt, λ _. refl)
  any-eq-false p (x ∷ xs) = ground (arith, any-eq-false p xs)

  pub all-eq-true : (p : A → Bool) (xs : List A) → (all p xs ≡ true) ↔ All (λ x. p x ≡ true) xs
  all-eq-true p [] = (λ _. tt, λ _. refl)
  all-eq-true p (x ∷ xs) = ground (arith, all-eq-true p xs)
