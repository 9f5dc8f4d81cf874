-- ===== src/Base/Result.antt =====
-- Calls that may raise: the error paths of the program as values.
use Prim.Native.Nat.{ℕ}
use Prim.Native.String.{String}
use mathlib.Core.Path.{◌≡◌, refl}
use mathlib.Core.Logic.{◌↔◌}
use mathlib.Core.Bool.{Bool, true, false}

-- The exceptions that the program raises or catches, by class; an `HTTPException` has its status. `integrity` is
-- `EvidenceIntegrityError`, a subclass of `ValueError`.
pub data Error : Type 0 where
  permission : String → Error
  value_error integrity key_error os_error : Error
  transition_conflict budget_conflict idempotency_conflict : Error
  runtime_error other : Error
  http : (status : ℕ) → Error

pub data Result {ℓ} (X : Type ℓ) : Type ℓ where
  err : Error → Result X
  ok : X → Result X

infixl 5 ◌>>=◌ ◌>>◌
abbrev pub ◌>>=◌ {ℓ κ} : {X : Type ℓ} {Y : Type κ} → Result X → (X → Result Y) → Result Y
err e >>= next = err e
ok x >>= next = next x

abbrev pub ◌>>◌ {ℓ} : {Y : Type ℓ} → Result (Unit {0}) → Result Y → Result Y
first >> second = first >>= λ _. second

-- `if bad: raise e`
abbrev pub raise_if : Bool → Error → Result (Unit {0})
raise_if true e = err e
raise_if false e = ok tt

abbrev pub is_ok {ℓ} : {A : Type ℓ} → Result A → Bool
is_ok (ok _) = true
is_ok (err _) = false

-- `except ValueError`, which takes the subclasses too.
abbrev pub is_value_error : Error → Bool
is_value_error value_error = true
is_value_error integrity = true
is_value_error idempotency_conflict = true
is_value_error _ = false

pub >>=-eq-ok {ℓ κ} :
    {X : Type ℓ} {Y : Type κ} (first : Result X) (next : X → Result Y) {y : Y}
    → (first >>= next) ≡ ok y
    → (x : X) × (first ≡ ok x) × (next x ≡ ok y)
>>=-eq-ok (err e) next h = cc
>>=-eq-ok (ok x) next h = (x, refl, h)

-- A validator that got past one of its tests.
pub raise_if-then :
    (b : Bool) (e : Error) (k : Result (Unit {0}))
    → ((raise_if b e >> k) ≡ ok tt) ↔ ((b ≡ false) × (k ≡ ok tt))
raise_if-then true e k = (λ h. absurd (cc), λ h. absurd (cc))
raise_if-then false e k = (λ h. (refl, h), λ h. h.1)

pub raise_if-eq-ok : (b : Bool) (e : Error) → (raise_if b e ≡ ok tt) ↔ (b ≡ false)
raise_if-eq-ok true e = (λ h. absurd (cc), λ h. absurd (cc))
raise_if-eq-ok false e = (λ h. refl, λ h. refl)

pub >>-eq-ok : (m k : Result (Unit {0})) → ((m >> k) ≡ ok tt) ↔ ((m ≡ ok tt) × (k ≡ ok tt))
>>-eq-ok (ok tt) k = (λ h. (refl, h), λ h. h.1)
>>-eq-ok (err e) k = (λ h. absurd (cc), λ h. absurd (cc))

pub ok_inj {ℓ} : {A : Type ℓ} {a b : A} → ok a ≡ ok b → a ≡ b
ok_inj h = cc
