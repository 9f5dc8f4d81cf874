-- ===== src/Memory/Incidents/Runs.antt =====
-- Interleaved workers on the incident table of src/payops/memory/store.py, and what creation promises
-- to them.
use pay_ops.Base.{
  is_some, String, false, ◌≡◌, refl, sym, subst, Option, none, some, ◌∷◌, Eq, ◌==◌, string_eq, Time,
  Bool-cases, inl, inr, or-eq-false, Option-discrete,
}
use pay_ops.Base.Result.{Result, ok, err}
use pay_ops.Base.Table.{Codec}
use pay_ops.Contracts.{
  incident_valid, IncidentCreate, IncidentReport, Incident, validate_citations,
  validate_report_scope,
}
use pay_ops.Memory.Incidents.{
  IncidentRow, key_eq, new_incident, with_report, Table, find_incident, find_key, incident_taken,
  key_taken, incident_row, create_incident, update_rows, save_commit,
}
use pay_ops.Memory.Incidents.Rows.{
  Lookup, by_id, by_key, selects, look_up, Stays, Stays-trans, Publishes, update_rows-Stays,
}
use pay_ops.Memory.Incidents.Outcomes.{Created, create_incident-Created, Saved, save_commit-Saved}

module _ {Text : Type 0} ⦃text_eq : Eq Text⦄ (codec : Codec Incident Text) where
  -- One call by some worker. The first read of `save_report` may see any table at all, and its report
  -- has passed its own validator.
  pub data Call : Table codec → Table codec → Type 0 where
    created :
        (rows : Table codec) (request : IncidentCreate) (key : Option String) (id : String)
        (now : Time)
        → Call rows (create_incident codec request key id now rows).1
    saved :
        (rows seen : Table codec) (report : IncidentReport)
        → validate_citations report ≡ ok tt
        → Call rows (save_commit codec report seen rows).1

  pub data Run (start : Table codec) : Table codec → Type 0 where
    here : Run start start
    next : {rows rows' : Table codec} → Run start rows → Call rows rows' → Run start rows'

  -- What one call may do to the table.
  pub data Step (rows : Table codec) : Table codec → Type 0 where
    unchanged : Step rows rows
    added :
        (i : Incident) (key : Option String)
        → incident_valid i ≡ ok tt
        → incident_taken codec i.incident_id key rows ≡ false
        → Step rows (incident_row codec i key ∷ rows)
    reported :
        (id : String) (old : Text) (i : Incident) (report : IncidentReport)
        → Publishes codec id old i report
        → Step rows (update_rows codec id old (codec.write (with_report i report)) rows)

  pub new_incident-valid :
      (request : IncidentCreate) (id : String) (now : Time)
      → incident_valid (new_incident request id now) ≡ ok tt
  unfolding incident_valid validate_report_scope
  new_incident-valid request id now = refl

  pub Call-Step : {rows rows' : Table codec} → Call rows rows' → Step rows rows'
  Call-Step (created rows request key id now) =
      go (create_incident codec request key id now rows)
        (create_incident-Created codec request key id now rows)
    where
      go :
          (x : Result Incident × Table codec)
          → Created codec (new_incident request id now) key rows x
          → Step rows x.1
      go (err e, rows') h = subst (Step rows) (sym h) unchanged
      go (ok j, rows') (inl (h, _, free)) =
          subst (Step rows) (sym h)
            (added (new_incident request id now) key (new_incident-valid request id now) free)
      go (ok j, rows') (inr (h, _)) = subst (Step rows) (sym h) unchanged
  Call-Step (saved rows seen report cited) =
      go (save_commit codec report seen rows) (save_commit-Saved codec report seen rows cited)
    where
      go :
          (x : Result (Option Incident) × Table codec)
          → Saved codec report seen rows x
          → Step rows x.1
      go (err e, rows') (h, _) = subst (Step rows) (sym h) unchanged
      go (ok none, rows') (h, _, _, _, _, _) = subst (Step rows) (sym h) unchanged
      go (ok (some j), rows') (row, i, _, inl (h, _, _)) = subst (Step rows) (sym h) unchanged
      go (ok (some j), rows') (row, i, _, inr (p, _, _, h)) =
          subst (Step rows) (sym h) (reported report.incident_id row.payload i report p)

  -- A new row is not found by what already found another one.
  pub incident_row-unselected :
      (l : Lookup) (i : Incident) (key : Option String) (rows : Table codec)
      (row : IncidentRow Text)
      → look_up codec l rows ≡ some row
      → incident_taken codec i.incident_id key rows ≡ false
      → selects codec l (incident_row codec i key) ≡ false
  unfolding Option-discrete
  incident_row-unselected (by_id id) i key rows row h free =
      elim (Bool-cases (i.incident_id == id)) [
        | inr other ↦ other
        | inl one ↦
            let found =
              subst (λ j. find_incident codec j rows ≡ some row)
                (sym ((string_eq.beq_iff i.incident_id id).0 one)) h in
            absurd (
              cc (
                found,
                ((or-eq-false (is_some (find_incident codec i.incident_id rows))
                      (key_taken codec key rows)).0
                    free).0,
              ))
      ]
  incident_row-unselected (by_key k) i none rows row h free = refl
  incident_row-unselected (by_key k) i (some k') rows row h free =
      elim (Bool-cases (some k' == some k)) [
        | inr other ↦ other
        | inl one ↦
            let found =
              subst (λ j. find_key codec j rows ≡ some row)
                (sym ((key_eq.beq_iff (some k') (some k)).0 one)) h in
            absurd (
              cc (
                found,
                ((or-eq-false (is_some (find_incident codec i.incident_id rows))
                      (key_taken codec (some k') rows)).0
                    free).1,
              ))
      ]

  Step-Stays :
      {rows rows' : Table codec} (l : Lookup) (row : IncidentRow Text)
      → Step rows rows'
      → look_up codec l rows ≡ some row
      → (row' : IncidentRow Text) × (look_up codec l rows' ≡ some row') × Stays codec row row'
  Step-Stays l row unchanged h = (row, h, inl refl)
  Step-Stays {rows} l row (added i key v free) h =
      (row, rw (incident_row-unselected l i key rows row h free) h, inl refl)
  Step-Stays {rows} l row (reported id old i report p) h =
      update_rows-Stays codec l id old i report rows row p h

  -- A row that is found by its identifier or its key is found by it ever after.
  pub Run-Stays :
      {start rows : Table codec} (l : Lookup) (row : IncidentRow Text)
      → Run start rows
      → look_up codec l start ≡ some row
      → (row' : IncidentRow Text) × (look_up codec l rows ≡ some row') × Stays codec row row'
  Run-Stays l row here h = (row, h, inl refl)
  Run-Stays l row (next r c) h =
      let (row', h', s) = Run-Stays l row r h in
      let (row'', h'', s') = Step-Stays l row' (Call-Step c) h' in
      (row'', h'', Stays-trans codec s s')
