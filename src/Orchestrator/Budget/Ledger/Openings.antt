-- ===== src/Orchestrator/Budget/Ledger/Openings.antt =====
-- How `BudgetLedger.open` of src/payops/orchestrator/budget.py ends.
use pay_ops.Base.{
  String, ◌||◌, ◌≡◌, refl, Option, none, some, ◌∷◌, Eq, ◌!=◌, string_eq, Bool-cases, inl, inr,
  ne2-eq-false, ◌⊎◌,
}
use pay_ops.Base.Result.{Result, ok, err}
use pay_ops.Base.Table.{Codec, find_row}
use pay_ops.Orchestrator.Budget.{
  ReasoningBudget, reasoning_budget_eq, charge_eq, completion_eq, BudgetRecord, budget_record_eq,
  within_limits,
}
use pay_ops.Orchestrator.Budget.Ledger.{
  fresh_record, Table, get, reopened, open_row, open_valid, open_budget,
}

module _ {Text : Type 0} ⦃text_eq : Eq Text⦄ (codec : Codec BudgetRecord Text) where
  -- A new row, or the row of a run that was opened with the same binding and limits.
  abbrev pub Opened : BudgetRecord → Table codec → Result BudgetRecord × Table codec → Type 0
  Opened fresh rows (ok r, rows') =
      ((find_row fresh.run_id rows ≡ none)
        × (within_limits fresh ≡ ok tt)
        × (r ≡ fresh)
        × (rows' ≡ (fresh.run_id, codec.write fresh) ∷ rows))
      ⊎ ((get codec fresh.run_id rows ≡ ok r)
          × (r.binding_sha256 ≡ fresh.binding_sha256)
          × (r.limits ≡ fresh.limits)
          × (rows' ≡ rows))
  Opened fresh rows (err _, rows') = rows' ≡ rows

  reopened-Opened :
      (fresh : BudgetRecord) (rows : Table codec) (x : Result BudgetRecord)
      → get codec fresh.run_id rows ≡ x
      → Opened fresh rows (reopened codec fresh x, rows)
  reopened-Opened fresh rows (err e) h = refl
  reopened-Opened fresh rows (ok r) h =
      elim (Bool-cases (r.binding_sha256 != fresh.binding_sha256 || r.limits != fresh.limits)) [
        | inl d ↦ rw d refl
        | inr d ↦
            let (b, l) =
              (ne2-eq-false r.binding_sha256 fresh.binding_sha256 r.limits fresh.limits).0 d in
            rw d (inr (h, b, l, refl))
      ]

  pub open_budget-Opened :
      (run_id binding : String) (limits : ReasoningBudget) (rows : Table codec)
      → Opened
          (fresh_record run_id binding limits)
          rows
          (open_budget codec run_id binding limits rows)
  unfolding open_budget
  open_budget-Opened run_id binding limits rows = valid (within_limits fresh) refl
    where
      fresh : BudgetRecord
      fresh = fresh_record run_id binding limits

      row :
          (o : Option Text)
          → find_row run_id rows ≡ o
          → within_limits fresh ≡ ok tt
          → Opened fresh rows (open_row codec fresh o rows)
      row none f v = inl (f, v, refl, refl)
      row (some _) f v = reopened-Opened fresh rows (get codec run_id rows) refl

      valid :
          (v : Result (Unit {0}))
          → within_limits fresh ≡ v
          → Opened fresh rows (open_valid codec v fresh rows)
      valid (err e) h = refl
      valid (ok _) h = row (find_row run_id rows) refl h
