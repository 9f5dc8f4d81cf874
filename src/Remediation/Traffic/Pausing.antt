-- ===== src/Remediation/Traffic/Pausing.antt =====
-- A pause of src/payops/remediation/traffic_control.py closes admission in every worker.
use pay_ops.Base.{
  ℕ, ◌+◌, String, Bool, true, false, ◌&&◌, ◌≡◌, ◌≢◌, refl, sym, subst, ap, ◌∙◌, Option, none, some,
  ◌∷◌, ◌==◌, string_eq, if◌then◌else◌, Bool-cases, inl, inr, String_discrete, arith, Time, some_inj,
}
use pay_ops.Base.Result.{Result, ok, err, permission}
use pay_ops.Base.Table.{
  find_row, set_row, find_row-set_row_self, find_row-set_row_ne, find_row-cons_ne,
}
use pay_ops.Policy.Records.{OperationMode, operation_mode_eq, Action}
use pay_ops.Remediation.Records.{EffectReceipt}
use pay_ops.Remediation.Traffic.{
  TrafficRow, Table, out_of_scope, insert_row, register, open_for, admit_row, admit, pause_row,
  pause_checked, pause,
}

module _ (show : ℕ → String) (digest : Action → String) where
  -- One call by some worker.
  pub data Call : Table → Table → Type 0 where
    registered :
        (rows : Table) (uid service : String) (mode : OperationMode)
        → Call rows (register uid service mode rows).1
    admitted :
        (rows : Table) (uid service : String) (mode : OperationMode)
        → Call rows (admit uid service mode rows).1
    paused :
        (rows : Table) (a : Action) (key : String) (now : Time)
        → Call rows (pause show digest a key now rows).1

  pub data Run (start : Table) : Table → Type 0 where
    here : Run start start
    next : {a b : Table} → Run start a → Call a b → Run start b

  pub record IsPaused (uid : String) (rows : Table) : Type 0 where
    pub row : TrafficRow
    pub found : find_row uid rows ≡ some row
    pub closed : row.paused ≡ true

  same_row :
      {uid : String} {rows : Table} (rows' : Table)
      → IsPaused uid rows
      → find_row uid rows' ≡ find_row uid rows
      → IsPaused uid rows'
  same_row rows' h e = record { row = h.row; found = e ∙ h.found; closed = h.closed }

  register-IsPaused :
      (uid id service : String) (mode : OperationMode) (rows : Table)
      → IsPaused id rows
      → IsPaused id (register uid service mode rows).1
  unfolding register
  register-IsPaused uid id service mode rows h = elim (Bool-cases (out_of_scope service mode)) [
    | inl out ↦ rw out h
    | inr in_scope ↦ rw in_scope (go (find_row uid rows) refl)
  ]
    where
      row : TrafficRow
      row = record { service = service; mode = mode; version = 0; paused = false; admitted = 0 }

      go :
          (o : Option TrafficRow)
          → find_row uid rows ≡ o
          → IsPaused id (insert_row uid row o rows).1
      go (some _) f = h
      go none f = elim (String_discrete uid id) [
        | yes e ↦ absurd (cc (f, subst (λ i. find_row i rows ≡ some h.row) (sym e) h.found))
        | no n ↦ same_row ((uid, row) ∷ rows) h (find_row-cons_ne uid id row rows n)
      ]

  -- An update of an open row leaves every paused row as it is.
  open_update :
      (uid id service : String) (mode : OperationMode) (r r' : TrafficRow) (rows : Table)
      → IsPaused id rows
      → find_row uid rows ≡ some r
      → open_for service mode r ≡ true
      → IsPaused id (set_row uid r' rows)
  open_update uid id service mode r r' rows h f is_open = elim (String_discrete uid id) [
    | yes e ↦
        let same : h.row ≡ r = some_inj (sym h.found ∙ subst (λ i. find_row i rows ≡ some r) e f) in
        absurd (closed_row r (subst (λ (x : TrafficRow). x.paused ≡ true) same h.closed) is_open)
    | no n ↦ same_row (set_row uid r' rows) h (find_row-set_row_ne uid id r' rows n)
  ]
    where
      closed_row : (r : TrafficRow) → r.paused ≡ true → open_for service mode r ≡ true → ⊥
      closed_row r c o = ground (arith, c, o)

  admit-IsPaused :
      (uid id service : String) (mode : OperationMode) (rows : Table)
      → IsPaused id rows
      → IsPaused id (admit uid service mode rows).1
  unfolding admit
  admit-IsPaused uid id service mode rows h = elim (Bool-cases (out_of_scope service mode)) [
    | inl out ↦ rw out h
    | inr in_scope ↦ rw in_scope (go (find_row uid rows) refl)
  ]
    where
      go :
          (o : Option TrafficRow)
          → find_row uid rows ≡ o
          → IsPaused id (admit_row uid service mode o rows).1
      go none f = h
      go (some r) f = elim (Bool-cases (open_for service mode r)) [
        | inl is_open ↦ rw is_open (
            open_update uid id service mode r (record r { admitted = r.admitted + 1 }) rows h f
              is_open)
        | inr shut ↦ rw shut h
      ]

  pause-IsPaused :
      (a : Action) (key : String) (now : Time) (id : String) (rows : Table)
      → IsPaused id rows
      → IsPaused id (pause show digest a key now rows).1
  unfolding pause
  pause-IsPaused a key now id rows h = checked _
    where
      row :
          (o : Option TrafficRow)
          → find_row a.resource_uid rows ≡ o
          → IsPaused id (pause_row show digest a o rows).1
      row none f = h
      row (some r) f =
          elim (Bool-cases (open_for a.service a.mode r && show r.version == a.expected_version)) [
            | inl go ↦
                rw go
                  (open_update a.resource_uid id a.service a.mode r _ rows h f (ground (arith, go)))
            | inr stop ↦ rw stop h
          ]

      checked : (x : Result (Unit {0})) → IsPaused id (pause_checked show digest x a rows).1
      checked (err e) = h
      checked (ok _) = row (find_row a.resource_uid rows) refl

  Run-IsPaused :
      {start rows : Table} {id : String} → Run start rows → IsPaused id start → IsPaused id rows
  Run-IsPaused here h = h
  Run-IsPaused (next r (registered rows uid service mode)) h =
      register-IsPaused uid _ service mode rows (Run-IsPaused r h)
  Run-IsPaused (next r (admitted rows uid service mode)) h =
      admit-IsPaused uid _ service mode rows (Run-IsPaused r h)
  Run-IsPaused (next r (paused rows a key now)) h =
      pause-IsPaused a key now _ rows (Run-IsPaused r h)

  row_after_pause :
      (a : Action) (key : String) (now : Time) (receipt : EffectReceipt) (rows rows1 : Table)
      → pause show digest a key now rows ≡ (ok receipt, rows1)
      → IsPaused a.resource_uid rows1
  unfolding pause
  row_after_pause a key now receipt rows rows1 e = checked _ e
    where
      written :
          (b : Bool) (r : TrafficRow) (x : EffectReceipt)
          → find_row a.resource_uid rows ≡ some r
          → ◌≡◌ {A = Result EffectReceipt × Table}
              (if b
                then (
                  ok x,
                  set_row a.resource_uid (record r { paused = true; version = r.version + 1 }) rows,
                )
                else (err (permission "TRAFFIC_PRECONDITION_FAILED"), rows))
              (ok receipt, rows1)
          → IsPaused a.resource_uid rows1
      written true r x f e = subst (IsPaused a.resource_uid) (ap (λ y. y.1) e) (record {
        row = record r { paused = true; version = r.version + 1 };
        found =
            find_row-set_row_self a.resource_uid
              (record r { paused = true; version = r.version + 1 }) r rows f;
        closed = refl;
      })
      written false r x f e = absurd (cc)

      row :
          (o : Option TrafficRow)
          → find_row a.resource_uid rows ≡ o
          → pause_row show digest a o rows ≡ (ok receipt, rows1)
          → IsPaused a.resource_uid rows1
      row none f e = absurd (cc)
      row (some r) f e = written _ r _ f e

      checked :
          (x : Result (Unit {0}))
          → pause_checked show digest x a rows ≡ (ok receipt, rows1)
          → IsPaused a.resource_uid rows1
      checked (err x) e = absurd (cc)
      checked (ok _) e = row (find_row a.resource_uid rows) refl e

  -- Once a pause of a traffic source has succeeded, no worker is admitted to that source any more,
  -- under any service and mode and after any further calls.
  pub admit_after_pause :
      (a : Action) (key service : String) (mode : OperationMode) (now : Time)
      (receipt : EffectReceipt) (rows rows1 rows2 : Table)
      → pause show digest a key now rows ≡ (ok receipt, rows1)
      → Run rows1 rows2
      → (admit a.resource_uid service mode rows2).0 ≢ ok true
  unfolding admit
  admit_after_pause a key service mode now receipt rows rows1 rows2 e run =
      let p = Run-IsPaused run (row_after_pause a key now receipt rows rows1 e) in
      scoped (out_of_scope service mode) p.row p.found p.closed
    where
      decided :
          (b : Bool) (r' : TrafficRow)
          → b ≡ false
          → (if◌then◌else◌ {A = Result Bool × Table} b
              (ok true, set_row a.resource_uid r' rows2)
              (ok false, rows2)).0
            ≢ ok true
      decided true r' h e = cc
      decided false r' h e = cc

      shut : (r : TrafficRow) → r.paused ≡ true → open_for service mode r ≡ false
      shut r c = ground (arith, c)

      scoped :
          (b : Bool) (r : TrafficRow)
          → find_row a.resource_uid rows2 ≡ some r
          → r.paused ≡ true
          → (if◌then◌else◌ {A = Result Bool × Table} b
              (err (permission "TRAFFIC_SCOPE_DENIED"), rows2)
              (admit_row a.resource_uid service mode (find_row a.resource_uid rows2) rows2)).0
            ≢ ok true
      scoped true r f c = λ e. cc
      scoped false r f c =
          rw f
            (decided (open_for service mode r) (record r { admitted = r.admitted + 1 }) (shut r c))
