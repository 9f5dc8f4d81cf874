-- ===== src/Orchestrator/Budget/Limits.antt =====
-- `BudgetRecord.within_limits` of src/payops/orchestrator/budget.py against its statement, and the
-- charge that a call reserves against what the provider's usage costs.
use pay_ops.Base.{
  ℕ, ◌+◌, ◌-◌, ◌*◌, ◌≤◌, max, String, Bool, true, false, not, ◌||◌, ◌≡◌, ◌↔◌, refl, some, List, [],
  ◌∷◌, ltb, all, length, contains, In, All, sym, some_inj, nat_eq, IsDistinct, contains_iff,
  distinct_iff, all-eq-true, All-map_iff, sum_of, not-eq-false, iff_trans, arith, string_eq,
}
use native.Mathlib.Nat.{mul-le-mul_left, mul-le-mul_right}
use pay_ops.Base.Result.{ok, raise_if-then, raise_if-eq-ok, >>-eq-ok}
use pay_ops.Orchestrator.Reasoning.{ProviderUsage, census, cost_nano_usd}
use pay_ops.Orchestrator.Budget.{
  ReasoningBudget, ModelCharge, ReadCharge, Charge, charge_valid, charges_valid, charge_tokens,
  charge_cost, model_charges, read_charges, BudgetRecord, operations, completed, exhausted,
  within_limits,
}

-- None of the six allowances is overspent.
pub record IsAfforded (limits : ReasoningBudget) (ms : List ModelCharge) (rs : List ReadCharge)
    : Type 0 where
  pub calls : length ms ≤ limits.model_calls
  pub tokens : sum_of charge_tokens ms ≤ limits.tokens
  pub cost : sum_of charge_cost ms ≤ limits.cost_nano_usd
  pub requests : sum_of (λ (c : ModelCharge). c.provider_requests) ms ≤ limits.provider_requests
  pub tools : sum_of (λ (c : ReadCharge). length c.requests) rs ≤ limits.tool_calls
  pub reads : sum_of (λ (c : ReadCharge). c.backend_read_count) rs ≤ limits.backend_reads

-- Valid charges with operations of their own, completed at most once each, within the limits.
pub record IsWithin (r : BudgetRecord) : Type 0 where
  pub charges : All (λ c. charge_valid c ≡ ok tt) r.charges
  pub few_charges : length r.charges ≤ 50
  pub few_completions : length r.completions ≤ 50
  pub distinct_operations : IsDistinct (operations r.charges)
  pub distinct_completions : IsDistinct (completed r.completions)
  pub charged : All (λ i. In i (operations r.charges)) (completed r.completions)
  pub afforded : IsAfforded r.limits (model_charges r.charges) (read_charges r.charges)

exhausted_iff :
    (limits : ReasoningBudget) (ms : List ModelCharge) (rs : List ReadCharge)
    → (exhausted limits ms rs ≡ false) ↔ IsAfforded limits ms rs
exhausted_iff limits ms rs = ground arith

charges_valid_iff :
    (cs : List Charge) → (charges_valid cs ≡ ok tt) ↔ All (λ c. charge_valid c ≡ ok tt) cs
charges_valid_iff [] = (λ _. tt, λ _. refl)
charges_valid_iff (c ∷ cs) =
    let both = >>-eq-ok (charge_valid c) (charges_valid cs) in
    let ih = charges_valid_iff cs in
    (λ e. ((both.0 e).0, ih.0 (both.0 e).1), λ g. both.1 (g.0, ih.1 g.1))

sizes_iff : (a b : ℕ) → ((ltb 50 a || ltb 50 b) ≡ false) ↔ ((a ≤ 50) × (b ≤ 50))
sizes_iff a b = ground arith

completions_iff : (a b : Bool) → ((not a || not b) ≡ false) ↔ ((a ≡ true) × (b ≡ true))
completions_iff a b = ground arith

covered_iff :
    (ids xs : List String) → (all (λ i. contains i ids) xs ≡ true) ↔ All (λ i. In i ids) xs
covered_iff ids xs = iff_trans (all-eq-true _ xs) (All-map_iff xs (λ i. contains_iff i ids))

-- The validators of a budget record accept it exactly when its charges are valid and few, name
-- distinct operations, are completed at most once each, and overspend none of the six allowances.
pub within_limits_iff : (r : BudgetRecord) → (within_limits r ≡ ok tt) ↔ IsWithin r
unfolding within_limits
within_limits_iff r = (
  λ e.
      let (v, e) = (>>-eq-ok _ _).0 e in
      let (s, e) = (raise_if-then _ _ _).0 e in
      let (o, e) = (raise_if-then _ _ _).0 e in
      let (c, e) = (raise_if-then _ _ _).0 e in
      let (fc, fp) = (sizes_iff _ _).0 s in
      let (d, k) = (completions_iff _ _).0 c in
      record {
        charges = (charges_valid_iff r.charges).0 v;
        few_charges = fc;
        few_completions = fp;
        distinct_operations = (distinct_iff _).0 ((not-eq-false _).0 o);
        distinct_completions = (distinct_iff _).0 d;
        charged = (covered_iff _ _).0 k;
        afforded = (exhausted_iff _ _ _).0 ((raise_if-eq-ok _ _).0 e);
      },
  λ w. (>>-eq-ok _ _).1 (
    (charges_valid_iff r.charges).1 w.charges,
    (raise_if-then _ _ _).1 (
      (sizes_iff _ _).1 (w.few_charges, w.few_completions),
      (raise_if-then _ _ _).1 (
        (not-eq-false _).1 ((distinct_iff _).1 w.distinct_operations),
        (raise_if-then _ _ _).1 (
          (completions_iff _ _).1
              ((distinct_iff _).1 w.distinct_completions, (covered_iff _ _).1 w.charged),
          (raise_if-eq-ok _ _).1 ((exhausted_iff _ _ _).1 w.afforded),
        ),
      ),
    ),
  ),
)

cost_split :
    (k c i o l p q w m : ℕ)
    → p ≤ m
    → q ≤ m
    → k + c ≤ i
    → o ≤ l
    → k * p + c * q + o * w ≤ i * m + l * w
cost_split k c i o l p q w m hp hq hi ho = omega (
  arith,
  mul-le-mul_left k hp,
  mul-le-mul_left c hq,
  mul-le-mul_right m hi,
  mul-le-mul_right w ho,
)

-- A call whose reported usage passes the census and stays within the tokens that it reserved costs
-- no more than it reserved, whatever part of its input the provider read from its cache.
pub cost-le-charge :
    (c : ModelCharge) (u : ProviderUsage) (n : ℕ)
    → census u ≡ ok tt
    → u.input_tokens ≤ c.input_tokens
    → u.output_tokens ≤ c.output_token_limit
    → cost_nano_usd c.price (some u) ≡ some n
    → n ≤ charge_cost c
unfolding census cost_nano_usd
cost-le-charge c u n h i o e =
    let valid : u.cached_input_tokens ≤ u.input_tokens = ground (arith, (raise_if-eq-ok _ _).0 h) in
    rw (sym (some_inj e)) (
      cost_split (u.input_tokens - u.cached_input_tokens) u.cached_input_tokens c.input_tokens
        u.output_tokens c.output_token_limit c.price.input_nano_usd c.price.cached_input_nano_usd
        c.price.output_nano_usd (max c.price.input_nano_usd c.price.cached_input_nano_usd)
        (omega arith) (omega arith) (omega (arith, valid)) o)
