-- ===== src/Orchestrator/Budget/Ledger/Invariant.antt =====
-- What every run of `BudgetLedger` calls in src/payops/orchestrator/budget.py keeps: valid rows of
-- their own runs, with what they were opened and charged with.
use pay_ops.Base.{
  String, ◌≡◌, ◌≢◌, refl, sym, subst, ap, ◌∙◌, Option, none, some, Eq, ◌!=◌, string_eq, some_inj,
  String_discrete,
}
use pay_ops.Base.Result.{Result, ok, err, Error, raise_if, ◌>>◌, >>=-eq-ok, ok_inj}
use pay_ops.Base.Table.{
  Codec, find_row, set_row, find_row-set_row_self, find_row-set_row_ne, find_row-cons_ne,
  find_row-cons_self,
}
use pay_ops.Orchestrator.Budget.{BudgetRecord, within_limits}
use pay_ops.Orchestrator.Budget.Limits.{IsWithin, within_limits_iff}
use pay_ops.Orchestrator.Budget.Ledger.{Table, read_budget, get_row, get}
use pay_ops.Orchestrator.Budget.Ledger.Runs.{
  Extends, Extends-trans, Step, kept, inserted, extended, Call-Step, Run, here, next,
}

module _ {Text : Type 0} ⦃text_eq : Eq Text⦄ (codec : Codec BudgetRecord Text) where
  -- The row of run `id` holds a valid record of that run, which has grown from `origin`.
  pub record Holds (id : String) (rows : Table codec) (entry : BudgetRecord) : Type 0 where
    pub text : Text
    pub found : find_row id rows ≡ some text
    pub stored : read_budget codec text ≡ ok entry

  pub read_budget-within :
      (text : Text) (r : BudgetRecord) → read_budget codec text ≡ ok r → within_limits r ≡ ok tt
  unfolding read_budget
  read_budget-within text r e = go (codec.read text) e
    where
      checked :
          (x : BudgetRecord) (v : Result (Unit {0}))
          → within_limits x ≡ v
          → (v >> ok x) ≡ ok r
          → within_limits r ≡ ok tt
      checked x (ok _) h e = subst (λ y. within_limits y ≡ ok tt) (ok_inj e) h
      checked x (err _) h e = absurd (cc)

      go :
          (o : Option BudgetRecord)
          → ◌≡◌ {A = Result BudgetRecord}
              (elim o [ none ↦ err Error.value_error | some x ↦ (within_limits x >> ok x) ])
              (ok r)
          → within_limits r ≡ ok tt
      go none e = absurd (cc)
      go (some x) e = checked x (within_limits x) refl e

  pub read_budget-write :
      (r : BudgetRecord) → within_limits r ≡ ok tt → read_budget codec (codec.write r) ≡ ok r
  unfolding read_budget
  read_budget-write r v = go (codec.read (codec.write r)) (codec.read-write r)
    where
      go :
          (o : Option BudgetRecord)
          → o ≡ some r
          → ◌≡◌ {A = Result BudgetRecord}
              (elim o [ none ↦ err Error.value_error | some x ↦ (within_limits x >> ok x) ])
              (ok r)
      go none e = absurd (cc)
      go (some x) e = rw (some_inj e, v) refl

  -- Two records of one row are one record.
  pub Holds-unique :
      {id : String} {rows : Table codec} {r r' : BudgetRecord}
      → Holds id rows r
      → Holds id rows r'
      → r ≡ r'
  Holds-unique h h' =
      let same : h.text ≡ h'.text = some_inj (sym h.found ∙ h'.found) in
      ok_inj (sym h.stored ∙ ap (read_budget codec) same ∙ h'.stored)

  pub written_row :
      (r r' : BudgetRecord) (raw : Text) (rows : Table codec)
      → find_row r.run_id rows ≡ some raw
      → within_limits r' ≡ ok tt
      → Holds r.run_id (set_row r.run_id (codec.write r') rows) r'
  written_row r r' raw rows f v = record {
    text = codec.write r';
    found = find_row-set_row_self r.run_id (codec.write r') raw rows f;
    stored = read_budget-write r' v;
  }

  -- What `get` returns stands in the row.
  pub get-Holds :
      (id : String) (rows : Table codec) (r : BudgetRecord)
      → get codec id rows ≡ ok r
      → Holds id rows r
  unfolding get
  get-Holds id rows r e = go (find_row id rows) refl e
    where
      go : (o : Option Text) → find_row id rows ≡ o → get_row codec id o ≡ ok r → Holds id rows r
      go none f e = absurd (cc)
      go (some text) f e =
          let (x, stored, e) = >>=-eq-ok (read_budget codec text) _ e in
          let (u, own, e) =
            >>=-eq-ok (raise_if (x.run_id != id) Error.budget_conflict) (λ _. ok x) e in
          record {
            text = text;
            found = f;
            stored = subst (λ y. read_budget codec text ≡ ok y) (ok_inj e) stored;
          }

  -- Every row is valid and is the row of its own run.
  pub record IsLedger (rows : Table codec) : Type 0 where
    pub at :
        (id : String) (text : Text)
        → find_row id rows ≡ some text
        → (r : BudgetRecord) × (read_budget codec text ≡ ok r) × (r.run_id ≡ id)

  put-IsLedger :
      (id : String) (r : BudgetRecord) (rows rows' : Table codec)
      → IsLedger rows
      → r.run_id ≡ id
      → Holds id rows' r
      → ((j : String) → id ≢ j → find_row j rows' ≡ find_row j rows)
      → IsLedger rows'
  put-IsLedger id r rows rows' l own h others = record {
    at = λ j text f. elim (String_discrete id j) [
      | yes e ↦
          let same : h.text ≡ text =
            some_inj (sym h.found ∙ subst (λ k. find_row k rows' ≡ some text) (sym e) f) in
          (r, subst (λ t. read_budget codec t ≡ ok r) same h.stored, own ∙ e)
      | no n ↦ l.at j text (sym (others j n) ∙ f)
    ];
  }

  Step-IsLedger :
      {rows rows' : Table codec} → Step codec rows rows' → IsLedger rows → IsLedger rows'
  Step-IsLedger kept l = l
  Step-IsLedger {rows} (inserted r f v) l =
      put-IsLedger r.run_id r rows _ l refl
        (record {
          text = codec.write r;
          found = find_row-cons_self r.run_id (codec.write r) rows;
          stored = read_budget-write r v;
        })
        (λ j n. find_row-cons_ne r.run_id j (codec.write r) rows n)
  Step-IsLedger {rows} (extended r r' raw f s v x) l =
      put-IsLedger r.run_id r' rows _ l x.run_id (written_row r r' raw rows f v)
        (λ j n. find_row-set_row_ne r.run_id j (codec.write r') rows n)

  pub Run-IsLedger :
      {start rows : Table codec} → Run codec start rows → IsLedger start → IsLedger rows
  Run-IsLedger here l = l
  Run-IsLedger (next r c) l = Step-IsLedger (Call-Step codec c) (Run-IsLedger r l)

  -- From a table whose rows are valid, after any calls of any workers, every row that is found reads
  -- as a record of its own run that overspends none of its allowances and has no operation twice.
  pub spending-IsWithin :
      (start rows : Table codec) (id : String) (text : Text)
      → IsLedger start
      → Run codec start rows
      → find_row id rows ≡ some text
      → (r : BudgetRecord) × (read_budget codec text ≡ ok r) × (r.run_id ≡ id) × IsWithin r
  spending-IsWithin start rows id text l run f =
      let (r, stored, own) = (Run-IsLedger run l).at id text f in
      (r, stored, own, (within_limits_iff r).0 (read_budget-within text r stored))

  -- Run `id` has a row whose record has grown from `origin`.
  pub record HasGrown (id : String) (origin : BudgetRecord) (rows : Table codec) : Type 0 where
    pub entry : BudgetRecord
    pub held : Holds id rows entry
    pub grown : Extends origin entry

  HasGrown-same :
      {id : String} {origin : BudgetRecord} {rows rows' : Table codec}
      → find_row id rows' ≡ find_row id rows
      → HasGrown id origin rows
      → HasGrown id origin rows'
  HasGrown-same e h = record {
    entry = h.entry;
    held = record { text = h.held.text; found = e ∙ h.held.found; stored = h.held.stored };
    grown = h.grown;
  }

  extended-HasGrown :
      {id : String} {origin : BudgetRecord} {rows : Table codec} (r r' : BudgetRecord) (raw : Text)
      → find_row r.run_id rows ≡ some raw
      → read_budget codec raw ≡ ok r
      → within_limits r' ≡ ok tt
      → Extends r r'
      → HasGrown id origin rows
      → HasGrown id origin (set_row r.run_id (codec.write r') rows)
  extended-HasGrown {id} {origin} {rows} r r' raw f s v x h = elim (String_discrete r.run_id id) [
    | yes e ↦
        let was : Holds id rows r =
          subst (λ k. Holds k rows r) e (record { text = raw; found = f; stored = s }) in
        record {
          entry = r';
          held =
              subst (λ k. Holds k (set_row r.run_id (codec.write r') rows) r') e
                (written_row r r' raw rows f v);
          grown = Extends-trans h.grown (subst (λ y. Extends y r') (Holds-unique was h.held) x);
        }
    | no n ↦ HasGrown-same (find_row-set_row_ne r.run_id id (codec.write r') rows n) h
  ]

  Step-HasGrown :
      {id : String} {origin : BudgetRecord} {rows rows' : Table codec}
      → Step codec rows rows'
      → HasGrown id origin rows
      → HasGrown id origin rows'
  Step-HasGrown kept h = h
  Step-HasGrown {id} {origin} {rows} (inserted r f v) h = elim (String_discrete r.run_id id) [
    | yes e ↦ absurd (cc (f, subst (λ k. find_row k rows ≡ some h.held.text) (sym e) h.held.found))
    | no n ↦ HasGrown-same (find_row-cons_ne r.run_id id (codec.write r) rows n) h
  ]
  Step-HasGrown (extended r r' raw f s v x) h = extended-HasGrown r r' raw f s v x h

  pub Run-HasGrown :
      {id : String} {origin : BudgetRecord} {start rows : Table codec}
      → Run codec start rows
      → HasGrown id origin start
      → HasGrown id origin rows
  Run-HasGrown here h = h
  Run-HasGrown (next r c) h = Step-HasGrown (Call-Step codec c) (Run-HasGrown r h)
