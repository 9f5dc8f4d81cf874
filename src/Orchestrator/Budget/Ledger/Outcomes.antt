-- ===== src/Orchestrator/Budget/Ledger/Outcomes.antt =====
-- How the methods of `BudgetLedger` in src/payops/orchestrator/budget.py end: on every branch that
-- is granted, the row was the expected record and is the updated one now; else nothing is written.
use pay_ops.Base.{
  String, ◌≡◌, refl, sym, subst, Option, none, some, Eq, ◌!=◌, string_eq, Bool-cases, inl, inr,
  ne-eq-false, ap,
}
use pay_ops.Base.Result.{
  Result, ok, err, budget_conflict, raise_if, is_value_error, ◌>>◌, >>=-eq-ok, raise_if-eq-ok,
  ok_inj,
}
use pay_ops.Base.Table.{Codec, find_row, set_row}
use pay_ops.Orchestrator.Budget.{
  reasoning_budget_eq, Charge, charge_eq, operation_of, charge_valid, Completion, completion_eq,
  BudgetRecord, budget_record_eq, within_limits,
}
use pay_ops.Orchestrator.Budget.Ledger.{
  Grant, new, existing, denied, with_charge, with_completion, find_charge, find_completion, Table,
  read_budget, swap, observed, swap_observed, replace, granted, unchanged, charge_new,
  reserve_valid, reserve_checked, reserve, complete_new, complete_valid, complete_checked, complete,
}

module _ {Text : Type 0} ⦃text_eq : Eq Text⦄ (codec : Codec BudgetRecord Text) where
  -- The row of `expected` has become the row of `updated`.
  pub record Swapped (expected updated : BudgetRecord) (rows rows' : Table codec) : Type 0 where
    pub raw : Text
    pub found : find_row expected.run_id rows ≡ some raw
    pub stored : read_budget codec raw ≡ ok expected
    pub written : rows' ≡ set_row expected.run_id (codec.write updated) rows

  abbrev pub Replaced :
      BudgetRecord → BudgetRecord → Table codec → Result (Unit {0}) × Table codec → Type 0
  Replaced expected updated rows (ok _, rows') = Swapped expected updated rows rows'
  Replaced expected updated rows (err _, rows') = rows' ≡ rows

  observed-eq-ok :
      (expected : BudgetRecord) (raw raw' : Text)
      → observed codec expected (some raw) ≡ ok raw'
      → (raw' ≡ raw) × (read_budget codec raw ≡ ok expected)
  observed-eq-ok expected raw raw' e =
      let (r, stored, e) = >>=-eq-ok (read_budget codec raw) _ e in
      let (u, same, e) = >>=-eq-ok (raise_if (r != expected) budget_conflict) _ e in
      let is : r ≡ expected = (ne-eq-false r expected).0 ((raise_if-eq-ok _ _).0 same) in
      (sym (ok_inj e), subst (λ x. read_budget codec raw ≡ ok x) is stored)

  swap_row_self :
      (run_id : String) (raw : Text) (updated : BudgetRecord) (rows : Table codec)
      → find_row run_id rows ≡ some raw
      → swap codec run_id raw updated rows ≡ (ok tt, set_row run_id (codec.write updated) rows)
  unfolding swap
  swap_row_self run_id raw updated rows f = rw (f, (text_eq.beq_iff raw raw).1 refl) refl

  pub replace-Replaced :
      (expected updated : BudgetRecord) (rows : Table codec)
      → Replaced expected updated rows (replace codec expected updated rows)
  unfolding replace
  replace-Replaced expected updated rows = go (find_row expected.run_id rows) refl
    where
      ended :
          (raw : Text) (x : Result Text)
          → find_row expected.run_id rows ≡ some raw
          → observed codec expected (some raw) ≡ x
          → Replaced expected updated rows (swap_observed codec expected updated x rows)
      ended raw (err e) f h = refl
      ended raw (ok raw') f h =
          let (same, stored) = observed-eq-ok expected raw raw' h in
          rw same (
            rw (swap_row_self expected.run_id raw updated rows f)
              (record { raw = raw; found = f; stored = stored; written = refl }))

      go :
          (o : Option Text)
          → find_row expected.run_id rows ≡ o
          → Replaced expected updated rows
              (swap_observed codec expected updated (observed codec expected o) rows)
      go none f = refl
      go (some raw) f = ended raw (observed codec expected (some raw)) f refl

  -- A grant of new work, and its write.
  pub record Granted (expected updated : BudgetRecord) (rows rows' : Table codec) : Type 0 where
    pub valid : within_limits updated ≡ ok tt
    pub swapped : Swapped expected updated rows rows'

  abbrev pub Reserved : BudgetRecord → Charge → Table codec → Result Grant × Table codec → Type 0
  Reserved expected charge rows (ok new, rows') =
      (find_charge (operation_of charge) expected.charges ≡ none)
      × Granted expected (with_charge expected charge) rows rows'
  Reserved expected charge rows (ok _, rows') = rows' ≡ rows
  Reserved expected charge rows (err _, rows') = rows' ≡ rows

  replayed :
      (expected : BudgetRecord) (charge : Charge) (rows : Table codec) (x y : Result (Unit {0}))
      → Reserved expected charge rows ((x >> (y >> ok existing)), rows)
  replayed expected charge rows (err e) y = refl
  replayed expected charge rows (ok _) (err e) = refl
  replayed expected charge rows (ok _) (ok _) = refl

  pub reserve-Reserved :
      (expected : BudgetRecord) (charge : Charge) (rows : Table codec)
      → Reserved expected charge rows (reserve codec expected charge rows)
  unfolding reserve
  reserve-Reserved expected charge rows = checked (within_limits expected >> charge_valid charge)
    where
      written :
          (x : Result (Unit {0}) × Table codec)
          → find_charge (operation_of charge) expected.charges ≡ none
          → within_limits (with_charge expected charge) ≡ ok tt
          → Replaced expected (with_charge expected charge) rows x
          → Reserved expected charge rows (granted codec new x)
      written (ok _, rows') free v s = (free, record { valid = v; swapped = s })
      written (err e, rows') free v s = s

      fresh :
          (v : Result (Unit {0}))
          → find_charge (operation_of charge) expected.charges ≡ none
          → within_limits (with_charge expected charge) ≡ v
          → Reserved expected charge rows
              (charge_new codec v expected (with_charge expected charge) rows)
      fresh (ok _) free v =
          written _ free v (replace-Replaced expected (with_charge expected charge) rows)
      fresh (err e) free v = elim (Bool-cases (is_value_error e)) [
        | inl d ↦ rw d refl
        | inr d ↦ rw d refl
      ]

      valid :
          (o : Option Charge)
          → find_charge (operation_of charge) expected.charges ≡ o
          → Reserved expected charge rows (reserve_valid codec expected charge o rows)
      valid (some old) f =
          replayed expected charge rows (raise_if (old != charge) budget_conflict)
            (unchanged codec expected rows)
      valid none f = fresh (within_limits (with_charge expected charge)) f refl

      checked :
          (v : Result (Unit {0}))
          → Reserved expected charge rows (reserve_checked codec v expected charge rows)
      checked (err e) = refl
      checked (ok _) = valid (find_charge (operation_of charge) expected.charges) refl

  abbrev pub Completed :
      BudgetRecord → Completion → Table codec → Result Grant × Table codec → Type 0
  Completed expected receipt rows (ok new, rows') =
      (find_completion receipt.operation_id expected.completions ≡ none)
      × Granted expected (with_completion expected receipt) rows rows'
  Completed expected receipt rows (ok existing, rows') =
      (find_completion receipt.operation_id expected.completions ≡ some receipt)
      × (unchanged codec expected rows ≡ ok tt)
      × (rows' ≡ rows)
  Completed expected receipt rows (ok denied, rows') = ⊥
  Completed expected receipt rows (err _, rows') = rows' ≡ rows

  recompleted :
      (expected : BudgetRecord) (receipt old : Completion) (rows : Table codec)
      (x y : Result (Unit {0}))
      → find_completion receipt.operation_id expected.completions ≡ some old
      → raise_if (old != receipt) budget_conflict ≡ x
      → unchanged codec expected rows ≡ y
      → Completed expected receipt rows ((x >> (y >> ok existing)), rows)
  recompleted expected receipt old rows (err e) y f h u = refl
  recompleted expected receipt old rows (ok _) (err e) f h u = refl
  recompleted expected receipt old rows (ok _) (ok _) f h u =
      let same : old ≡ receipt = (ne-eq-false old receipt).0 ((raise_if-eq-ok _ _).0 h) in
      (rw f (ap some same), u, refl)

  pub complete-Completed :
      (expected : BudgetRecord) (operation_id artifact_sha256 : String) (rows : Table codec)
      → Completed expected
          (record { operation_id = operation_id; artifact_sha256 = artifact_sha256 })
          rows
          (complete codec expected operation_id artifact_sha256 rows)
  unfolding complete
  complete-Completed expected operation_id artifact_sha256 rows = checked (within_limits expected)
    where
      receipt : Completion
      receipt = record { operation_id = operation_id; artifact_sha256 = artifact_sha256 }

      written :
          (x : Result (Unit {0}) × Table codec)
          → find_completion operation_id expected.completions ≡ none
          → within_limits (with_completion expected receipt) ≡ ok tt
          → Replaced expected (with_completion expected receipt) rows x
          → Completed expected receipt rows (granted codec new x)
      written (ok _, rows') free v s = (free, record { valid = v; swapped = s })
      written (err e, rows') free v s = s

      fresh :
          (v : Result (Unit {0}))
          → find_completion operation_id expected.completions ≡ none
          → within_limits (with_completion expected receipt) ≡ v
          → Completed expected receipt rows
              (complete_new codec v expected (with_completion expected receipt) rows)
      fresh (ok _) free v =
          written _ free v (replace-Replaced expected (with_completion expected receipt) rows)
      fresh (err e) free v = refl

      valid :
          (o : Option Completion)
          → find_completion operation_id expected.completions ≡ o
          → Completed expected receipt rows (complete_valid codec expected receipt o rows)
      valid (some old) f = recompleted expected receipt old rows _ _ f refl refl
      valid none f = fresh (within_limits (with_completion expected receipt)) f refl

      checked :
          (v : Result (Unit {0}))
          → Completed expected receipt rows (complete_checked codec v expected receipt rows)
      checked (err e) = refl
      checked (ok _) = valid (find_completion operation_id expected.completions) refl
