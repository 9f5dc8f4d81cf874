-- ===== src/Orchestrator/Budget/Ledger/Once.antt =====
-- Dispatch and completion of one operation in src/payops/orchestrator/budget.py, by any workers.
use pay_ops.Base.{
  String, ◌≡◌, ◌≢◌, refl, sym, subst, ap, ◌∙◌, none, some, Eq, ◌==◌, ◌!=◌, ne-eq-false, string_eq,
  some_inj, inl, inr,
}
use pay_ops.Base.Result.{Result, ok, err, Error, >>=-eq-ok, ok_inj, raise_if, raise_if-eq-ok}
use pay_ops.Base.Table.{Codec, find_row-cons_self}
use pay_ops.Orchestrator.Budget.{
  ReasoningBudget, Charge, operation_of, Completion, BudgetRecord, budget_record_eq,
}
use pay_ops.Orchestrator.Budget.Ledger.{
  Grant, new, existing, denied, with_charge, with_completion, find_charge, find_completion, Table,
  get, reserve, complete, open_budget, unchanged, fresh_record,
}
use pay_ops.Orchestrator.Budget.Ledger.Outcomes.{
  Granted, Reserved, reserve-Reserved, Completed, complete-Completed,
}
use pay_ops.Orchestrator.Budget.Ledger.Openings.{Opened, open_budget-Opened}
use pay_ops.Orchestrator.Budget.Ledger.Runs.{Extends, Extends-refl, find-appended, Run}
use pay_ops.Orchestrator.Budget.Ledger.Invariant.{
  Holds, Holds-unique, read_budget-write, get-Holds, written_row, HasGrown, Run-HasGrown,
}

module _ {Text : Type 0} ⦃text_eq : Eq Text⦄ (codec : Codec BudgetRecord Text) where
  Granted-HasGrown :
      {r r' : BudgetRecord} {rows rows' : Table codec}
      → Granted codec r r' rows rows'
      → HasGrown codec r.run_id r' rows'
  Granted-HasGrown {r} {r'} {rows} g = record {
    entry = r';
    held =
        subst (λ t. Holds codec r.run_id t r') (sym g.swapped.written)
          (written_row codec r r' g.swapped.raw rows g.swapped.found g.valid);
    grown = Extends-refl r';
  }

  -- The record that a later grant was made against is the one that has grown.
  grown_to :
      {origin r r' : BudgetRecord} {rows rows' : Table codec} {id : String}
      → HasGrown codec id origin rows
      → Granted codec r r' rows rows'
      → r.run_id ≡ id
      → Extends origin r
  grown_to {origin} {r} {rows = rows} h g e =
      let now : Holds codec r.run_id rows r = record {
        text = g.swapped.raw;
        found = g.swapped.found;
        stored = g.swapped.stored;
      } in
      let now' = subst (λ i. Holds codec i rows r) e now in
      subst (Extends origin) (Holds-unique codec h.held now') h.grown

  -- Once one worker has been granted an operation of a run as new work, no worker is granted that
  -- operation of that run again as new work, with any charge and after any calls of any workers.
  pub reserve_once :
      (expected expected' : BudgetRecord) (charge charge' : Charge) (rows rows1 rows2 : Table codec)
      → reserve codec expected charge rows ≡ (ok new, rows1)
      → Run codec rows1 rows2
      → expected'.run_id ≡ expected.run_id
      → operation_of charge' ≡ operation_of charge
      → (reserve codec expected' charge' rows2).0 ≢ ok new
  reserve_once expected expected' charge charge' rows rows1 rows2 e run same op =
      let (free, g) =
        subst (Reserved codec expected charge rows) e
          (reserve-Reserved codec expected charge rows) in
      let h = Run-HasGrown codec run (Granted-HasGrown g) in
      let charged =
        find-appended (λ c. operation_of c == operation_of charge) expected.charges charge free
          ((string_eq.beq_iff _ _).1 refl) in
      go h charged (reserve codec expected' charge' rows2)
        (reserve-Reserved codec expected' charge' rows2)
    where
      go :
          HasGrown codec expected.run_id (with_charge expected charge) rows2
          → find_charge (operation_of charge) (with_charge expected charge).charges ≡ some charge
          → (x : Result Grant × Table codec) → Reserved codec expected' charge' rows2 x
          → x.0 ≢ ok new
      go h charged (ok new, rows') (free', g') e' =
          let found = (grown_to h g' same).charges (operation_of charge) charge charged in
          absurd (cc (found, subst (λ i. find_charge i expected'.charges ≡ none) op free'))
      go h charged (ok existing, rows') r e' = cc
      go h charged (ok denied, rows') r e' = cc
      go h charged (err x, rows') r e' = cc

  unchanged-Holds :
      (r : BudgetRecord) (rows : Table codec)
      → unchanged codec r rows ≡ ok tt
      → Holds codec r.run_id rows r
  unchanged-Holds r rows e =
      let (x, got, e) =
        >>=-eq-ok (get codec r.run_id rows) (λ x. raise_if (x != r) Error.budget_conflict) e in
      let same : x ≡ r = (ne-eq-false x r).0 ((raise_if-eq-ok _ _).0 e) in
      get-Holds codec r.run_id rows r (subst (λ y. get codec r.run_id rows ≡ ok y) same got)

  -- Once an operation is completed with a digest, a later completion of it by any worker that is
  -- not refused is a replay, and names the same digest.
  pub complete_once :
      (expected expected' : BudgetRecord) (id sha sha' : String) (rows rows1 rows2 : Table codec)
      (g : Grant)
      → complete codec expected id sha rows ≡ (ok new, rows1)
      → Run codec rows1 rows2
      → expected'.run_id ≡ expected.run_id
      → (complete codec expected' id sha' rows2).0 ≡ ok g
      → (g ≡ existing) × (sha' ≡ sha)
  complete_once expected expected' id sha sha' rows rows1 rows2 g e run same e' =
      let (free, d) =
        subst (Completed codec expected receipt rows) e
          (complete-Completed codec expected id sha rows) in
      let h = Run-HasGrown codec run (Granted-HasGrown d) in
      let found =
        find-appended (λ (c : Completion). c.operation_id == id) expected.completions receipt free
          ((string_eq.beq_iff _ _).1 refl) in
      go h found (complete codec expected' id sha' rows2)
        (complete-Completed codec expected' id sha' rows2) e'
    where
      receipt : Completion
      receipt = record { operation_id = id; artifact_sha256 = sha }

      receipt' : Completion
      receipt' = record { operation_id = id; artifact_sha256 = sha' }

      go :
          HasGrown codec expected.run_id (with_completion expected receipt) rows2
          → find_completion id (with_completion expected receipt).completions ≡ some receipt
          → (x : Result Grant × Table codec) → Completed codec expected' receipt' rows2 x
          → x.0 ≡ ok g
          → (g ≡ existing) × (sha' ≡ sha)
      go h done (ok new, rows') (free', d') e' =
          absurd (cc ((grown_to h d' same).completions id receipt done, free'))
      go h done (ok existing, rows') (old, u, _) e' =
          let now =
            subst (λ i. Holds codec i rows2 expected') same (unchanged-Holds expected' rows2 u) in
          let grown =
            subst (Extends (with_completion expected receipt)) (Holds-unique codec h.held now)
              h.grown in
          let one : receipt' ≡ receipt = some_inj (sym old ∙ grown.completions id receipt done) in
          (sym (ok_inj e'), ap (λ (c : Completion). c.artifact_sha256) one)
      go h done (ok denied, rows') r e' = absurd r
      go h done (err x, rows') r e' = absurd (cc)

  -- The record that `open` returns, in the table that it leaves.
  Opened-Holds :
      (fresh r : BudgetRecord) (rows rows' : Table codec)
      → Opened codec fresh rows (ok r, rows')
      → Holds codec fresh.run_id rows' r
  Opened-Holds fresh r rows rows' (inl (f, v, same, e)) =
      rw (same, e)
        (record {
          text = codec.write fresh;
          found = find_row-cons_self fresh.run_id (codec.write fresh) rows;
          stored = read_budget-write codec fresh v;
        })
  Opened-Holds fresh r rows rows' (inr (got, _, _, e)) =
      rw e (get-Holds codec fresh.run_id rows r got)

  -- A run keeps the binding and the limits it was opened with: a later opening by any worker that is
  -- not refused returns a record with the binding and limits of the first one.
  pub open_budget_once :
      (run_id binding binding' : String) (limits limits' : ReasoningBudget) (r r' : BudgetRecord)
      (rows rows1 rows2 rows3 : Table codec)
      → open_budget codec run_id binding limits rows ≡ (ok r, rows1)
      → Run codec rows1 rows2
      → open_budget codec run_id binding' limits' rows2 ≡ (ok r', rows3)
      → (r'.binding_sha256 ≡ r.binding_sha256) × (r'.limits ≡ r.limits)
  open_budget_once run_id binding binding' limits limits' r r' rows rows1 rows2 rows3 e run e' =
      let first =
        subst (Opened codec (fresh_record run_id binding limits) rows) e
          (open_budget-Opened codec run_id binding limits rows) in
      let second =
        subst (Opened codec (fresh_record run_id binding' limits') rows2) e'
          (open_budget-Opened codec run_id binding' limits' rows2) in
      let held = Opened-Holds (fresh_record run_id binding limits) r rows rows1 first in
      go (Run-HasGrown codec run (record { entry = r; held = held; grown = Extends-refl r })) second
    where
      go :
          HasGrown codec run_id r rows2
          → Opened codec (fresh_record run_id binding' limits') rows2 (ok r', rows3)
          → (r'.binding_sha256 ≡ r.binding_sha256) × (r'.limits ≡ r.limits)
      go h (inl (f, _, _, _)) = absurd (cc (f, h.held.found))
      go h (inr (got, _, _, _)) =
          let same = Holds-unique codec h.held (get-Holds codec run_id rows2 r' got) in
          let grown = subst (Extends r) same h.grown in (grown.binding, grown.limits)
