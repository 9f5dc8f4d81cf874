-- ===== src/Orchestrator/Budget/Ledger/Runs.antt =====
-- Workers that share one table of budgets in src/payops/orchestrator/budget.py: a run is a sequence
-- of method calls with any arguments, each at the table that the calls before it have left.
use pay_ops.Base.{
  String, Bool, true, ◌≡◌, refl, sym, subst, ◌∙◌, none, some, List, [], ◌∷◌, ◌++◌, Eq, string_eq,
  arith, inl, inr, find,
}
use pay_ops.Base.Result.{Result, ok, err}
use pay_ops.Base.Table.{Codec, find_row, set_row}
use pay_ops.Orchestrator.Budget.{ReasoningBudget, Charge, Completion, BudgetRecord, within_limits}
use pay_ops.Orchestrator.Budget.Ledger.{
  Grant, new, existing, denied, with_charge, with_completion, find_charge, find_completion,
  fresh_record, Table, read_budget, reserve, complete, open_budget,
}
use pay_ops.Orchestrator.Budget.Ledger.Outcomes.{
  Granted, Reserved, reserve-Reserved, Completed, complete-Completed,
}
use pay_ops.Orchestrator.Budget.Ledger.Openings.{Opened, open_budget-Opened}

-- What never changes in a record, and what is only ever added to.
pub record Extends (r r' : BudgetRecord) : Type 0 where
  pub run_id : r'.run_id ≡ r.run_id
  pub binding : r'.binding_sha256 ≡ r.binding_sha256
  pub limits : r'.limits ≡ r.limits
  pub charges :
      (id : String) (c : Charge)
      → find_charge id r.charges ≡ some c
      → find_charge id r'.charges ≡ some c
  pub completions :
      (id : String) (c : Completion)
      → find_completion id r.completions ≡ some c
      → find_completion id r'.completions ≡ some c

pub Extends-refl : (r : BudgetRecord) → Extends r r
Extends-refl r = record {
  run_id = refl;
  binding = refl;
  limits = refl;
  charges = λ id c h. h;
  completions = λ id c h. h;
}

pub Extends-trans : {r s t : BudgetRecord} → Extends r s → Extends s t → Extends r t
Extends-trans p q = record {
  run_id = q.run_id ∙ p.run_id;
  binding = q.binding ∙ p.binding;
  limits = q.limits ∙ p.limits;
  charges = λ id c h. q.charges id c (p.charges id c h);
  completions = λ id c h. q.completions id c (p.completions id c h);
}

-- A search that finds an item still finds it when more are appended, and finds an appended one if
-- it found none before.
find-append {ℓ} :
    {A : Type ℓ} (p : A → Bool) (xs ys : List A) (a : A)
    → find p xs ≡ some a
    → find p (xs ++ ys) ≡ some a
find-append p [] ys a h = cc
find-append p (x ∷ xs) ys a h = ground (arith, find-append p xs ys a)

pub find-appended {ℓ} :
    {A : Type ℓ} (p : A → Bool) (xs : List A) (a : A)
    → find p xs ≡ none
    → p a ≡ true
    → find p (xs ++ a ∷ []) ≡ some a
find-appended p [] a h t = rw t refl
find-appended p (x ∷ xs) a h t = ground (arith, find-appended p xs a)

with_charge-Extends : (r : BudgetRecord) (c : Charge) → Extends r (with_charge r c)
with_charge-Extends r c = record {
  run_id = refl;
  binding = refl;
  limits = refl;
  charges = λ id x h. find-append _ r.charges (c ∷ []) x h;
  completions = λ id x h. h;
}

with_completion-Extends : (r : BudgetRecord) (c : Completion) → Extends r (with_completion r c)
with_completion-Extends r c = record {
  run_id = refl;
  binding = refl;
  limits = refl;
  charges = λ id x h. h;
  completions = λ id x h. find-append _ r.completions (c ∷ []) x h;
}

module _ {Text : Type 0} ⦃text_eq : Eq Text⦄ (codec : Codec BudgetRecord Text) where
  -- What a call may do to the table.
  pub data Step (rows : Table codec) : Table codec → Type 0 where
    kept : Step rows rows
    inserted :
        (r : BudgetRecord)
        → find_row r.run_id rows ≡ none
        → within_limits r ≡ ok tt
        → Step rows ((r.run_id, codec.write r) ∷ rows)
    extended :
        (r r' : BudgetRecord) (raw : Text)
        → find_row r.run_id rows ≡ some raw
        → read_budget codec raw ≡ ok r
        → within_limits r' ≡ ok tt
        → Extends r r'
        → Step rows (set_row r.run_id (codec.write r') rows)

  kept_as : {rows rows' : Table codec} → rows' ≡ rows → Step rows rows'
  kept_as {rows} e = subst (Step rows) (sym e) kept

  extended_as :
      {r r' : BudgetRecord} {rows rows' : Table codec}
      → Granted codec r r' rows rows'
      → Extends r r'
      → Step rows rows'
  extended_as {r} {r'} {rows} g x =
      subst (Step rows) (sym g.swapped.written)
        (extended r r' g.swapped.raw g.swapped.found g.swapped.stored g.valid x)

  reserve-Step :
      (expected : BudgetRecord) (charge : Charge) (rows : Table codec)
      → Step rows (reserve codec expected charge rows).1
  reserve-Step expected charge rows =
      go (reserve codec expected charge rows) (reserve-Reserved codec expected charge rows)
    where
      go : (x : Result Grant × Table codec) → Reserved codec expected charge rows x → Step rows x.1
      go (ok new, rows') h = extended_as h.1 (with_charge-Extends expected charge)
      go (ok existing, rows') h = kept_as h
      go (ok denied, rows') h = kept_as h
      go (err e, rows') h = kept_as h

  complete-Step :
      (expected : BudgetRecord) (id sha : String) (rows : Table codec)
      → Step rows (complete codec expected id sha rows).1
  complete-Step expected id sha rows =
      go (complete codec expected id sha rows) (complete-Completed codec expected id sha rows)
    where
      go :
          (x : Result Grant × Table codec)
          → Completed codec expected (record { operation_id = id; artifact_sha256 = sha }) rows x
          → Step rows x.1
      go (ok new, rows') h = extended_as h.1 (with_completion-Extends expected _)
      go (ok existing, rows') (_, _, e) = kept_as e
      go (ok denied, rows') h = absurd h
      go (err e, rows') h = kept_as h

  open_budget-Step :
      (run_id binding : String) (limits : ReasoningBudget) (rows : Table codec)
      → Step rows (open_budget codec run_id binding limits rows).1
  open_budget-Step run_id binding limits rows =
      go (open_budget codec run_id binding limits rows)
        (open_budget-Opened codec run_id binding limits rows)
    where
      go :
          (x : Result BudgetRecord × Table codec)
          → Opened codec (fresh_record run_id binding limits) rows x
          → Step rows x.1
      go (ok r, rows') (inl (f, v, _, e)) =
          subst (Step rows) (sym e) (inserted (fresh_record run_id binding limits) f v)
      go (ok r, rows') (inr (_, _, _, e)) = kept_as e
      go (err e, rows') h = kept_as h

  -- One call by some worker.
  pub data Call : Table codec → Table codec → Type 0 where
    reserved :
        (rows : Table codec) (r : BudgetRecord) (c : Charge) → Call rows (reserve codec r c rows).1
    completed :
        (rows : Table codec) (r : BudgetRecord) (id sha : String)
        → Call rows (complete codec r id sha rows).1
    opened :
        (rows : Table codec) (run_id binding : String) (limits : ReasoningBudget)
        → Call rows (open_budget codec run_id binding limits rows).1

  pub data Run (start : Table codec) : Table codec → Type 0 where
    here : Run start start
    next : {a b : Table codec} → Run start a → Call a b → Run start b

  pub Call-Step : {a b : Table codec} → Call a b → Step a b
  Call-Step (reserved rows r c) = reserve-Step r c rows
  Call-Step (completed rows r id sha) = complete-Step r id sha rows
  Call-Step (opened rows run_id binding limits) = open_budget-Step run_id binding limits rows
