-- ===== src/Orchestrator/Budget/Tests.antt =====
-- One run's budget in src/payops/orchestrator/budget.py: opened, charged for a call, completed.
use pay_ops.Base.{
  ◌≤◌, String, ◌≡◌, ◌≢◌, ◌↔◌, refl, some, List, [], ◌∷◌, subst, arith, String_discrete, ℕ_discrete,
  List-discrete,
}
use pay_ops.Base.Result.{Result, ok}
use pay_ops.Base.Table.{Codec}
use pay_ops.Orchestrator.Reasoning.{ProviderUsage, census, cost_nano_usd, TextPrice-discrete}
use pay_ops.Orchestrator.Budget.{
  ReasoningBudget, TokenAccounting, ModelCharge, model, charge_cost, BudgetRecord,
  BudgetRecord-discrete, budget_record_eq, within_limits, ReasoningBudget-discrete, Charge-discrete,
  ModelCharge-discrete, TokenAccounting-discrete, Completion-discrete,
}
use pay_ops.Orchestrator.Budget.Limits.{IsWithin, within_limits_iff, cost-le-charge}
use pay_ops.Orchestrator.Budget.Ledger.{
  Grant, new, existing, with_charge, with_completion, fresh_record, read_budget, reserve, complete,
  open_budget,
}
use pay_ops.Orchestrator.Budget.Ledger.Runs.{Run, here, next, reserved, opened}
use pay_ops.Orchestrator.Budget.Ledger.Invariant.{IsLedger, spending-IsWithin}
use pay_ops.Orchestrator.Budget.Ledger.Once.{reserve_once, complete_once, open_budget_once}

-- Payloads that are records already.
abbrev plain : Codec BudgetRecord BudgetRecord
plain = record { write = λ r. r; read = λ r. some r; read-write = λ r. refl }

abbrev allowance : ReasoningBudget
allowance = record {
  model_calls = 1;
  tokens = 100;
  cost_nano_usd = 1000;
  tool_calls = 2;
  backend_reads = 4;
  provider_requests = 0;
}

abbrev call : ModelCharge
call = record {
  operation_id = "model-01";
  prompt_sha256 = "ab";
  input_tokens = 50;
  output_token_limit = 10;
  price = record { input_nano_usd = 10; cached_input_nano_usd = 1; output_nano_usd = 20 };
  token_accounting = TokenAccounting.fixture_exact;
  provider_requests = 0;
}

abbrev usage : ProviderUsage
usage = record { input_tokens = 40; output_tokens = 5; total_tokens = 45; cached_input_tokens = 30 }

abbrev opened_run : BudgetRecord
opened_run = fresh_record "run-1" "cd" allowance

abbrev charged_run : BudgetRecord
charged_run = with_charge opened_run (model call)

abbrev completed_run : BudgetRecord
completed_run =
    with_completion charged_run (record { operation_id = "model-01"; artifact_sha256 = "ef" })

empty-IsLedger : IsLedger plain []
empty-IsLedger = record { at = λ id text found. absurd (cc) }

run_opened :
    open_budget plain "run-1" "cd" allowance [] ≡ (ok opened_run, ("run-1", opened_run) ∷ [])
unfolding open_budget within_limits
run_opened = refl

run_charged :
    reserve plain opened_run (model call) (("run-1", opened_run) ∷ [])
    ≡ (ok new, ("run-1", charged_run) ∷ [])
unfolding reserve within_limits BudgetRecord-discrete String_discrete ReasoningBudget-discrete
    ℕ_discrete List-discrete
run_charged = refl

run_completed :
    complete plain charged_run "model-01" "ef" (("run-1", charged_run) ∷ [])
    ≡ (ok new, ("run-1", completed_run) ∷ [])
unfolding complete within_limits BudgetRecord-discrete String_discrete ReasoningBudget-discrete
    ℕ_discrete List-discrete Charge-discrete ModelCharge-discrete TextPrice-discrete
    TokenAccounting-discrete
run_completed = refl

run_replayed :
    (complete plain completed_run "model-01" "ef" (("run-1", completed_run) ∷ [])).0 ≡ ok existing
unfolding complete within_limits Completion-discrete String_discrete BudgetRecord-discrete
    ReasoningBudget-discrete ℕ_discrete List-discrete Charge-discrete ModelCharge-discrete
    TextPrice-discrete TokenAccounting-discrete
run_replayed = refl

run_reopened :
    open_budget plain "run-1" "cd" allowance (("run-1", charged_run) ∷ [])
    ≡ (ok charged_run, ("run-1", charged_run) ∷ [])
unfolding open_budget within_limits ReasoningBudget-discrete ℕ_discrete
run_reopened = refl

within_limits_iff_example : (within_limits charged_run ≡ ok tt) ↔ IsWithin charged_run
within_limits_iff_example = within_limits_iff charged_run

usage-census : census usage ≡ ok tt
unfolding census
usage-census = refl

usage-cost : cost_nano_usd call.price (some usage) ≡ some 230
unfolding cost_nano_usd
usage-cost = refl

cost-le-charge_example : 230 ≤ charge_cost call
cost-le-charge_example =
    cost-le-charge call usage 230 usage-census (omega arith) (omega arith) usage-cost

abbrev opened_rows : List (String × BudgetRecord)
opened_rows = ("run-1", opened_run) ∷ []

spending-IsWithin_example :
    (r : BudgetRecord) × (read_budget plain charged_run ≡ ok r) × (r.run_id ≡ "run-1") × IsWithin r
spending-IsWithin_example =
    spending-IsWithin plain [] (("run-1", charged_run) ∷ []) "run-1" charged_run empty-IsLedger
      (subst (λ (x : Result Grant × List (String × BudgetRecord)). Run plain [] x.1) run_charged
        (next
          (subst (λ (x : Result BudgetRecord × List (String × BudgetRecord)). Run plain [] x.1)
            run_opened (next here (opened [] "run-1" "cd" allowance)))
          (reserved opened_rows opened_run (model call))))
      refl

reserve_once_example :
    (reserve plain charged_run (model call) (("run-1", charged_run) ∷ [])).0 ≢ ok new
reserve_once_example =
    reserve_once plain opened_run charged_run (model call) (model call) opened_rows
      (("run-1", charged_run) ∷ []) (("run-1", charged_run) ∷ []) run_charged here refl refl

complete_once_example : (existing ≡ existing) × (◌≡◌ {A = String} "ef" "ef")
complete_once_example =
    complete_once plain charged_run completed_run "model-01" "ef" "ef" (("run-1", charged_run) ∷ [])
      (("run-1", completed_run) ∷ []) (("run-1", completed_run) ∷ []) existing run_completed here
      refl run_replayed

open_budget_once_example :
    (charged_run.binding_sha256 ≡ opened_run.binding_sha256)
    × (charged_run.limits ≡ opened_run.limits)
open_budget_once_example =
    open_budget_once plain "run-1" "cd" "cd" allowance allowance opened_run charged_run []
      opened_rows (("run-1", charged_run) ∷ []) (("run-1", charged_run) ∷ []) run_opened
      (subst (λ (x : Result Grant × List (String × BudgetRecord)). Run plain opened_rows x.1)
        run_charged (next here (reserved opened_rows opened_run (model call))))
      run_reopened
