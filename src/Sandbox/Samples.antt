-- ===== src/Sandbox/Samples.antt =====
-- src/payops/sandbox/runtime.py and the sample and fault records of src/payops/sandbox/models.py:
-- idempotent reservations of samples, and seeded faults. Each method of the store holds its lock
-- throughout, so a call is one step.
pub mod Reservations
mod Tests
use pay_ops.Base.{
  ℕ, ◌%◌, String, Bool, true, false, not, ◌&&◌, ◌||◌, Option, none, some, List, [], ◌∷◌, Eq, ◌==◌,
  ◌!=◌, string_eq, nat_eq, leb, length, all, discrete_eq, if◌then◌else◌,
}
use pay_ops.Base.Result.{Result, ok, err, http, key_error}
use pay_ops.Base.Action.{Exec}
use pay_ops.Base.Table.{find_row, set_row}

-- `Role`
pub data ServiceRole : Type 0 where
  payments risk ledger processor webhook : ServiceRole

pub data Processor : Type 0 where
  a b : Processor

unfoldable pub Processor-discrete : Discrete Processor
Processor-discrete = hlevel

instance abbrev pub processor_eq : Eq Processor
processor_eq = discrete_eq Processor-discrete

pub data Region : Type 0 where
  us eu : Region

unfoldable pub Region-discrete : Discrete Region
Region-discrete = hlevel

instance abbrev pub region_eq : Eq Region
region_eq = discrete_eq Region-discrete

pub data Method : Type 0 where
  credit debit : Method

unfoldable pub Method-discrete : Discrete Method
Method-discrete = hlevel

instance abbrev pub method_eq : Eq Method
method_eq = discrete_eq Method-discrete

pub record Sample : Type 0 where
  pub sample_id : String
  pub processor : Processor
  pub region : Region
  pub payment_method : Method

pub data Status : Type 0 where
  accepted declined : Status

pub record SimulationResult : Type 0 where
  pub sample_id : String
  pub role : ServiceRole
  pub status : Status

-- A fingerprint, and the result once there is one.
abbrev pub Entry : Type 0
Entry = String × Option SimulationResult

pub record SampleStore : Type 0 where
  pub capacity : ℕ
  pub entries : List (String × Entry)

-- `self._entries.pop(sample_id, None)`
abbrev pub remove_row : String → List (String × Entry) → List (String × Entry)
remove_row id [] = []
remove_row id ((key, entry) ∷ rows) = if key == id then rows else (key, entry) ∷ remove_row id rows

module _ (fingerprint : Sample → String) where
  -- What `reserve` does with the entry that it finds.
  abbrev pub replay : String → Entry → Result (Option SimulationResult)
  replay print (held, none) = err (http 409)
  replay print (held, some result) = if held != print then err (http 409) else ok (some result)

  abbrev pub reserve_entry : Sample → Option Entry → Exec SampleStore (Option SimulationResult)
  reserve_entry sample (some prior) s = (replay (fingerprint sample) prior, s)
  reserve_entry sample none s = if leb s.capacity (length s.entries) then (err (http 503), s) else (
    ok none,
    record s { entries = (sample.sample_id, (fingerprint sample, none)) ∷ s.entries },
  )

  -- `SampleStore.reserve`, over the SHA-256 of the sample's JSON.
  unfoldable pub reserve : Sample → Exec SampleStore (Option SimulationResult)
  reserve sample s = reserve_entry sample (find_row sample.sample_id s.entries) s

abbrev pub complete_entry : String → SimulationResult → Option Entry → Exec SampleStore (Unit {0})
complete_entry id result none s = (err key_error, s)
complete_entry id result (some (print, _)) s =
    (ok tt, record s { entries = set_row id (print, some result) s.entries })

-- `SampleStore.complete`
unfoldable pub complete : String → SimulationResult → Exec SampleStore (Unit {0})
complete id result s = complete_entry id result (find_row id s.entries) s

-- `SampleStore.abandon`
unfoldable pub abandon : String → Exec SampleStore (Unit {0})
abandon id s = (ok tt, record s { entries = remove_row id s.entries })

pub record FaultConfig : Type 0 where
  pub unavailable : Bool
  pub delay_ms : ℕ
  pub rate_limit_every : ℕ
  pub decline_every : ℕ
  pub processor : Option Processor
  pub region : Option Region
  pub payment_method : Option Method
  pub seed : ℕ

-- `selected is None or selected == actual`
abbrev pub selects : {A : Type 0} ⦃e : Eq A⦄ → Option A → A → Bool
selects none actual = true
selects (some selected) actual = selected == actual

-- `FaultConfig.matches`
unfoldable pub matches : FaultConfig → Sample → Bool
matches c s =
    selects c.processor s.processor
    && selects c.region s.region
    && selects c.payment_method s.payment_method

-- `every and bucket % every == 0`
abbrev pub falls_on : ℕ → ℕ → Bool
falls_on every bucket = every != 0 && bucket % every == 0

-- `FaultState.apply`, over the number that SHA-256 makes of seed and sample id; the delay changes
-- no state.
unfoldable pub apply : (ℕ → String → ℕ) → FaultConfig → Sample → Result Bool
unfolding matches
apply bucket c s =
    if not (matches c s)
    then ok false
    else if c.unavailable
    then err (http 503)
    else if falls_on c.rate_limit_every (bucket c.seed s.sample_id)
    then err (http 429)
    else ok (falls_on c.decline_every (bucket c.seed s.sample_id))
