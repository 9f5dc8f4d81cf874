-- ===== src/Orchestrator/Budget/Ledger.antt =====
-- `BudgetLedger` of src/payops/orchestrator/budget.py: the table of budgets, one row per run.
pub mod Outcomes
pub mod Openings
pub mod Runs
pub mod Invariant
pub mod Once
use pay_ops.Base.{
  String, Bool, true, false, not, ◌||◌, Option, none, some, List, [], ◌∷◌, ◌++◌, Eq, ◌==◌, ◌!=◌,
  string_eq, if◌then◌else◌, find,
}
use pay_ops.Base.Result.{
  Result, ok, err, Error, value_error, key_error, budget_conflict, raise_if, is_value_error, ◌>>=◌,
  ◌>>◌,
}
use pay_ops.Base.Action.{Exec}
use pay_ops.Base.Table.{Codec, find_row, set_row}
use pay_ops.Orchestrator.Budget.{
  ReasoningBudget, reasoning_budget_eq, Charge, charge_eq, operation_of, charge_valid, Completion,
  completion_eq, BudgetRecord, budget_record_eq, within_limits,
}

-- Whether this caller may dispatch, replay or neither.
pub data Grant : Type 0 where
  new existing denied : Grant

abbrev pub with_charge : BudgetRecord → Charge → BudgetRecord
with_charge r c = record r { charges = r.charges ++ c ∷ [] }

abbrev pub with_completion : BudgetRecord → Completion → BudgetRecord
with_completion r c = record r { completions = r.completions ++ c ∷ [] }

abbrev pub find_charge : String → List Charge → Option Charge
find_charge id cs = find (λ c. operation_of c == id) cs

abbrev pub find_completion : String → List Completion → Option Completion
find_completion id cs = find (λ (c : Completion). c.operation_id == id) cs

abbrev pub fresh_record : String → String → ReasoningBudget → BudgetRecord
fresh_record run_id binding limits = record {
  run_id = run_id;
  binding_sha256 = binding;
  limits = limits;
  charges = [];
  completions = [];
}

module _ {Text : Type 0} ⦃text_eq : Eq Text⦄ (codec : Codec BudgetRecord Text) where
  abbrev pub Table : Type 0
  Table = List (String × Text)

  -- `BudgetRecord.model_validate_json`
  unfoldable pub read_budget : Text → Result BudgetRecord
  read_budget text = elim (codec.read text) [
    | none ↦ err value_error
    | some r ↦ (within_limits r >> ok r)
  ]

  -- `BudgetLedger.get`, by the row found.
  abbrev pub get_row : String → Option Text → Result BudgetRecord
  get_row run_id none = err key_error
  get_row run_id (some text) =
      (read_budget text >>= λ r. (raise_if (r.run_id != run_id) budget_conflict >> ok r))

  unfoldable pub get : String → Table → Result BudgetRecord
  unfolding read_budget
  get run_id rows = get_row run_id (find_row run_id rows)

  -- The `UPDATE` of `_replace`: the row must still have the payload that was read.
  abbrev pub swap_row : String → Text → BudgetRecord → Option Text → Exec Table (Unit {0})
  swap_row run_id raw updated none rows = (err budget_conflict, rows)
  swap_row run_id raw updated (some payload) rows =
      if payload == raw
      then (ok tt, set_row run_id (codec.write updated) rows)
      else (err budget_conflict, rows)

  unfoldable pub swap : String → Text → BudgetRecord → Exec Table (Unit {0})
  swap run_id raw updated rows = swap_row run_id raw updated (find_row run_id rows) rows

  -- What `_replace` reads first: a row whose record is the expected one.
  abbrev pub observed : BudgetRecord → Option Text → Result Text
  observed expected none = err budget_conflict
  observed expected (some raw) = do
    r ← read_budget raw
    raise_if (r != expected) budget_conflict
    ok raw

  abbrev pub swap_observed : BudgetRecord → BudgetRecord → Result Text → Exec Table (Unit {0})
  swap_observed expected updated (err e) rows = (err e, rows)
  swap_observed expected updated (ok raw) rows = swap expected.run_id raw updated rows

  -- `BudgetLedger._replace`
  unfoldable pub replace : BudgetRecord → BudgetRecord → Exec Table (Unit {0})
  unfolding swap read_budget
  replace expected updated rows =
      swap_observed expected updated (observed expected (find_row expected.run_id rows)) rows

  abbrev pub granted : {A : Type 0} → A → Result (Unit {0}) × Table → Result A × Table
  granted a (ok _, rows) = (ok a, rows)
  granted a (err e, rows) = (err e, rows)

  -- `self.get(expected.run_id) != expected`
  abbrev pub unchanged : BudgetRecord → Table → Result (Unit {0})
  unchanged expected rows =
      (get expected.run_id rows >>= λ r. raise_if (r != expected) budget_conflict)

  abbrev pub replay : BudgetRecord → Charge → Charge → Table → Result Grant
  replay expected charge old rows = do
    raise_if (old != charge) budget_conflict
    unchanged expected rows
    ok existing

  -- The new charge, by what `BudgetRecord.model_validate` says of the updated record.
  abbrev pub charge_new : Result (Unit {0}) → BudgetRecord → BudgetRecord → Exec Table Grant
  charge_new (ok _) expected updated rows = granted new (replace expected updated rows)
  charge_new (err e) expected updated rows =
      if is_value_error e then (ok denied, rows) else (err e, rows)

  abbrev pub reserve_valid : BudgetRecord → Charge → Option Charge → Exec Table Grant
  reserve_valid expected charge (some old) rows = (replay expected charge old rows, rows)
  reserve_valid expected charge none rows =
      charge_new (within_limits (with_charge expected charge)) expected
        (with_charge expected charge) rows

  abbrev pub reserve_checked : Result (Unit {0}) → BudgetRecord → Charge → Exec Table Grant
  reserve_checked (err e) expected charge rows = (err e, rows)
  reserve_checked (ok _) expected charge rows =
      reserve_valid expected charge (find_charge (operation_of charge) expected.charges) rows

  -- `BudgetLedger.reserve`
  unfoldable pub reserve : BudgetRecord → Charge → Exec Table Grant
  unfolding replace get
  reserve expected charge rows =
      reserve_checked (within_limits expected >> charge_valid charge) expected charge rows

  abbrev pub complete_new : Result (Unit {0}) → BudgetRecord → BudgetRecord → Exec Table Grant
  complete_new (ok _) expected updated rows = granted new (replace expected updated rows)
  complete_new (err e) expected updated rows = (err e, rows)

  abbrev pub complete_valid : BudgetRecord → Completion → Option Completion → Exec Table Grant
  complete_valid expected receipt (some old) rows =
      (raise_if (old != receipt) budget_conflict >> (unchanged expected rows >> ok existing), rows)
  complete_valid expected receipt none rows =
      complete_new (within_limits (with_completion expected receipt)) expected
        (with_completion expected receipt) rows

  abbrev pub complete_checked : Result (Unit {0}) → BudgetRecord → Completion → Exec Table Grant
  complete_checked (err e) expected receipt rows = (err e, rows)
  complete_checked (ok _) expected receipt rows =
      complete_valid expected receipt (find_completion receipt.operation_id expected.completions)
        rows

  -- `BudgetLedger.complete`
  unfoldable pub complete : BudgetRecord → String → String → Exec Table Grant
  unfolding replace get
  complete expected operation_id artifact_sha256 rows =
      complete_checked (within_limits expected) expected
        (record { operation_id = operation_id; artifact_sha256 = artifact_sha256 }) rows

  -- The row that was there before, with the same binding and limits.
  abbrev pub reopened : BudgetRecord → Result BudgetRecord → Result BudgetRecord
  reopened fresh (err e) = err e
  reopened fresh (ok r) = do
    raise_if (r.binding_sha256 != fresh.binding_sha256 || r.limits != fresh.limits) budget_conflict
    ok r

  abbrev pub open_row : BudgetRecord → Option Text → Exec Table BudgetRecord
  open_row fresh none rows = (ok fresh, (fresh.run_id, codec.write fresh) ∷ rows)
  open_row fresh (some _) rows = (reopened fresh (get fresh.run_id rows), rows)

  abbrev pub open_valid : Result (Unit {0}) → BudgetRecord → Exec Table BudgetRecord
  open_valid (err e) fresh rows = (err e, rows)
  open_valid (ok _) fresh rows = open_row fresh (find_row fresh.run_id rows) rows

  -- `BudgetLedger.open`
  unfoldable pub open_budget : String → String → ReasoningBudget → Exec Table BudgetRecord
  unfolding get
  open_budget run_id binding limits rows =
      let fresh = fresh_record run_id binding limits in open_valid (within_limits fresh) fresh rows
