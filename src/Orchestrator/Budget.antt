-- ===== src/Orchestrator/Budget.antt =====
-- src/payops/orchestrator/budget.py: charges against a reasoning budget, their validators, and the
-- SQL ledger of one budget per run. Each method of the ledger is given the table as it is when the
-- method's transaction runs.
pub mod Ledger
pub mod Limits
mod Tests
use pay_ops.Base.{
  ℕ, ◌+◌, ◌*◌, max, String, Bool, true, false, not, ◌&&◌, ◌||◌, Option, none, some, List, [], ◌∷◌,
  ◌++◌, map, Eq, ◌==◌, ◌!=◌, string_eq, nat_eq, ltb, leb, if◌then◌else◌, all, length, contains,
  distinct, find, discrete_eq, ℕ_discrete, String_discrete, List-discrete, sum_of,
}
use pay_ops.Base.Result.{
  Result, ok, err, Error, value_error, key_error, budget_conflict, raise_if, is_value_error, ◌>>=◌,
  ◌>>◌,
}
use pay_ops.Base.Action.{Exec}
use pay_ops.Base.Table.{Codec, find_row, set_row}
use pay_ops.Orchestrator.Reasoning.{
  ReadRequest, ReadRequest-discrete, read_request_eq, TextPrice, TextPrice-discrete,
  backend_reads_of, query_scopes,
}

pub record ReasoningBudget : Type 0 where
  pub model_calls : ℕ
  pub tokens : ℕ
  pub cost_nano_usd : ℕ
  pub tool_calls : ℕ
  pub backend_reads : ℕ
  pub provider_requests : ℕ

unfoldable pub ReasoningBudget-discrete : Discrete ReasoningBudget
ReasoningBudget-discrete = hlevel ℕ_discrete

instance abbrev pub reasoning_budget_eq : Eq ReasoningBudget
reasoning_budget_eq = discrete_eq ReasoningBudget-discrete

pub data TokenAccounting : Type 0 where
  fixture_exact provider_ceiling : TokenAccounting

unfoldable pub TokenAccounting-discrete : Discrete TokenAccounting
TokenAccounting-discrete = hlevel

pub record ModelCharge : Type 0 where
  pub operation_id : String
  pub prompt_sha256 : String
  pub input_tokens : ℕ
  pub output_token_limit : ℕ
  pub price : TextPrice
  pub token_accounting : TokenAccounting
  pub provider_requests : ℕ

unfoldable pub ModelCharge-discrete : Discrete ModelCharge
ModelCharge-discrete =
    hlevel (ℕ_discrete, String_discrete, TextPrice-discrete, TokenAccounting-discrete)

abbrev pub requests_of : TokenAccounting → ℕ
requests_of provider_ceiling = 2
requests_of fixture_exact = 0

-- `ModelCharge.request_census`
unfoldable pub request_census : ModelCharge → Result (Unit {0})
request_census c = raise_if (c.provider_requests != requests_of c.token_accounting) value_error

-- `ModelCharge.tokens`
abbrev pub charge_tokens : ModelCharge → ℕ
charge_tokens c = c.input_tokens + c.output_token_limit

-- `ModelCharge.cost`
abbrev pub charge_cost : ModelCharge → ℕ
charge_cost c =
    c.input_tokens * max c.price.input_nano_usd c.price.cached_input_nano_usd
    + c.output_token_limit * c.price.output_nano_usd

pub record ReadCharge : Type 0 where
  pub operation_id : String
  pub requests : List ReadRequest
  pub backend_read_count : ℕ

unfoldable pub ReadCharge-discrete : Discrete ReadCharge
ReadCharge-discrete = hlevel (ℕ_discrete, String_discrete, List-discrete ReadRequest-discrete)

abbrev pub catalog_reads : List ReadRequest → ℕ
catalog_reads rs = sum_of (λ (r : ReadRequest). backend_reads_of r.tool) rs

-- `ReadCharge.distinct`, after the fields' bounds and the validators of the requests.
unfoldable pub read_charge_valid : ReadCharge → Result (Unit {0})
unfolding query_scopes
read_charge_valid c = do
  raise_if (not (leb 1 (length c.requests) && leb (length c.requests) 2)) value_error
  query_scopes c.requests
  raise_if (not (distinct c.requests)) value_error
  raise_if (c.backend_read_count != catalog_reads c.requests) value_error

pub data Charge : Type 0 where
  model : ModelCharge → Charge
  reads : ReadCharge → Charge

unfoldable pub Charge-discrete : Discrete Charge
Charge-discrete = hlevel (ModelCharge-discrete, ReadCharge-discrete)

instance abbrev pub charge_eq : Eq Charge
charge_eq = discrete_eq Charge-discrete

abbrev pub operation_of : Charge → String
operation_of (model c) = c.operation_id
operation_of (reads c) = c.operation_id

-- `CHARGE.validate_json` on a charge that was written as JSON.
abbrev pub charge_valid : Charge → Result (Unit {0})
charge_valid (model c) = request_census c
charge_valid (reads c) = read_charge_valid c

abbrev pub charges_valid : List Charge → Result (Unit {0})
charges_valid [] = ok tt
charges_valid (c ∷ cs) = charge_valid c >> charges_valid cs

-- `[charge for charge in self.charges if isinstance(charge, ModelCharge)]`, and the other kind.
abbrev pub model_charges : List Charge → List ModelCharge
model_charges [] = []
model_charges (model c ∷ cs) = c ∷ model_charges cs
model_charges (reads c ∷ cs) = model_charges cs

abbrev pub read_charges : List Charge → List ReadCharge
read_charges [] = []
read_charges (model c ∷ cs) = read_charges cs
read_charges (reads c ∷ cs) = c ∷ read_charges cs

pub record Completion : Type 0 where
  pub operation_id : String
  pub artifact_sha256 : String

unfoldable pub Completion-discrete : Discrete Completion
Completion-discrete = hlevel String_discrete

instance abbrev pub completion_eq : Eq Completion
completion_eq = discrete_eq Completion-discrete

pub record BudgetRecord : Type 0 where
  pub run_id : String
  pub binding_sha256 : String
  pub limits : ReasoningBudget
  pub charges : List Charge
  pub completions : List Completion

unfoldable pub BudgetRecord-discrete : Discrete BudgetRecord
BudgetRecord-discrete = hlevel (
  String_discrete,
  ReasoningBudget-discrete,
  List-discrete Charge-discrete,
  List-discrete Completion-discrete,
)

instance abbrev pub budget_record_eq : Eq BudgetRecord
budget_record_eq = discrete_eq BudgetRecord-discrete

abbrev pub operations : List Charge → List String
operations cs = map operation_of cs

abbrev pub completed : List Completion → List String
completed cs = map (λ (c : Completion). c.operation_id) cs

-- The six totals of `within_limits`.
abbrev pub exhausted : ReasoningBudget → List ModelCharge → List ReadCharge → Bool
exhausted limits ms rs =
    ltb limits.model_calls (length ms)
    || ltb limits.tokens (sum_of charge_tokens ms)
    || ltb limits.cost_nano_usd (sum_of charge_cost ms)
    || ltb limits.provider_requests (sum_of (λ (c : ModelCharge). c.provider_requests) ms)
    || ltb limits.tool_calls (sum_of (λ (c : ReadCharge). length c.requests) rs)
    || ltb limits.backend_reads (sum_of (λ (c : ReadCharge). c.backend_read_count) rs)

-- `BudgetRecord.within_limits`, after the validators of the charges and the fields' sizes.
unfoldable pub within_limits : BudgetRecord → Result (Unit {0})
unfolding request_census read_charge_valid
within_limits r = do
  charges_valid r.charges
  raise_if (ltb 50 (length r.charges) || ltb 50 (length r.completions)) value_error
  raise_if (not (distinct (operations r.charges))) value_error
  raise_if
      (not (distinct (completed r.completions))
        || not (all (λ i. contains i (operations r.charges)) (completed r.completions)))
      value_error
  raise_if (exhausted r.limits (model_charges r.charges) (read_charges r.charges)) value_error
