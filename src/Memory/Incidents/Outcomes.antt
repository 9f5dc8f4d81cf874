-- ===== src/Memory/Incidents/Outcomes.antt =====
-- What one call of `IncidentStore` in src/payops/memory/store.py returns and writes, on each branch.
use pay_ops.Base.{
  String, true, false, ◌≡◌, ◌≢◌, refl, sym, ◌∙◌, subst, Option, none, some, ◌∷◌, Eq, ◌!=◌,
  string_eq, any, Time, Bool-cases, Option-cases, some_inj, ◌⊎◌, inl, inr, ne-eq-false,
}
use pay_ops.Base.Result.{
  Result, ok, err, idempotency_conflict, raise_if, raise_if-eq-ok, >>=-eq-ok, ok_inj,
}
use pay_ops.Base.Table.{Codec}
use pay_ops.Contracts.{
  incident_valid, IncidentCreate, IncidentReport, Incident, validate_report_scope,
  validate_citations,
}
use pay_ops.Memory.Incidents.{
  IncidentRow, incident_create_eq, key_eq, new_incident, with_report, Table, find_incident,
  find_key, decode_incident, incident_taken, previous, incident_row, create_incident, row_matches,
  update_rows, publish_checked, save_over, save_seen, save_commit,
}
use pay_ops.Memory.Incidents.Rows.{find_test, Publishes, decode_parts}

incident_valid-with :
    (i : Incident) (report : IncidentReport)
    → validate_citations report ≡ ok tt
    → validate_report_scope (with_report i report) ≡ ok tt
    → incident_valid (with_report i report) ≡ ok tt
unfolding incident_valid
incident_valid-with i report cited scope = rw (cited, scope) refl

in_scope :
    (i : Incident) (report : IncidentReport)
    → i.incident_id ≡ report.incident_id
    → validate_report_scope (with_report i report) ≡ ok tt
unfolding validate_report_scope
in_scope i report e = rw ((ne-eq-false report.incident_id i.incident_id).1 (sym e)) refl

module _ {Text : Type 0} ⦃text_eq : Eq Text⦄ (codec : Codec Incident Text) where
  -- A replay returns the incident of the row that holds the key.
  pub record Replayed (request : IncidentCreate) (key : Option String) (rows : Table codec)
      (i : Incident) : Type 0 where
    pub row : IncidentRow Text
    pub found : find_key codec key rows ≡ some row
    pub stored : decode_incident codec row ≡ ok i
    pub same : i.request ≡ request

  abbrev pub Created :
      Incident → Option String → Table codec → Result Incident × Table codec → Type 0
  Created i key rows (err e, rows') = rows' ≡ rows
  Created i key rows (ok j, rows') =
      (rows' ≡ incident_row codec i key ∷ rows)
        × (j ≡ i)
        × (incident_taken codec i.incident_id key rows ≡ false)
      ⊎ (rows' ≡ rows) × Replayed i.request key rows j

  previous-Replayed :
      (request : IncidentCreate) (key : Option String) (rows : Table codec) (j : Incident)
      (found : Option (IncidentRow Text))
      → find_key codec key rows ≡ found
      → previous codec request found ≡ ok j
      → Replayed request key rows j
  previous-Replayed request key rows j none f e = absurd (cc)
  previous-Replayed request key rows j (some row) f e =
      let (x, read, e) = >>=-eq-ok (decode_incident codec row) _ e in
      let (_, same, e) = >>=-eq-ok (raise_if (x.request != request) idempotency_conflict) _ e in
      let one = ok_inj e in
      record {
        row = row;
        found = f;
        stored = subst (λ y. decode_incident codec row ≡ ok y) one read;
        same =
            subst (λ (y : Incident). y.request ≡ request) one
              ((ne-eq-false x.request request).0 ((raise_if-eq-ok _ _).0 same));
      }

  pub create_incident-Created :
      (request : IncidentCreate) (key : Option String) (id : String) (now : Time)
      (rows : Table codec)
      → Created
          (new_incident request id now)
          key
          rows
          (create_incident codec request key id now rows)
  unfolding create_incident
  create_incident-Created request key id now rows =
      elim (Bool-cases (incident_taken codec id key rows)) [
        | inr free ↦ rw free (inl (refl, refl, free))
        | inl dup ↦ rw dup (go (previous codec request (find_key codec key rows)) refl)
      ]
    where
      go :
          (x : Result Incident)
          → previous codec request (find_key codec key rows) ≡ x
          → Created (new_incident request id now) key rows (x, rows)
      go (err e) h = refl
      go (ok j) h = inr (refl, previous-Replayed request key rows j _ refl h)

  -- What the first read of `save_report` saw: a row, and the incident in it.
  pub record Seen (id : String) (seen : Table codec) (row : IncidentRow Text) (i : Incident)
      : Type 0 where
    pub found : find_incident codec id seen ≡ some row
    pub stored : decode_incident codec row ≡ ok i

  abbrev pub Saved :
      IncidentReport → Table codec → Table codec → Result (Option Incident) × Table codec → Type 0
  Saved report seen rows (err e, rows') =
      (rows' ≡ rows)
      × ((row : IncidentRow Text) (i : Incident) → ¬ Seen report.incident_id seen row i)
  Saved report seen rows (ok none, rows') =
      (rows' ≡ rows)
      × (row : IncidentRow Text) × (i : Incident) × Seen report.incident_id seen row i
      × (i.report ≡ none)
      × (any (row_matches codec report.incident_id row.payload) rows ≡ false)
  Saved report seen rows (ok (some j), rows') =
      (row : IncidentRow Text) × (i : Incident) × Seen report.incident_id seen row i
      × (((rows' ≡ rows) × (j ≡ i) × (i.report ≢ none))
          ⊎ Publishes codec report.incident_id row.payload i report
            × (any (row_matches codec report.incident_id row.payload) rows ≡ true)
            × (j ≡ with_report i report)
            × (rows'
                ≡ update_rows codec report.incident_id row.payload
                    (codec.write (with_report i report)) rows))

  found_incident :
      (id : String) (rows : Table codec) (row : IncidentRow Text)
      → find_incident codec id rows ≡ some row
      → row.incident_id ≡ id
  found_incident id rows row h = (string_eq.beq_iff row.incident_id id).0 (find_test _ rows row h)

  pub save_commit-Saved :
      (report : IncidentReport) (seen rows : Table codec)
      → validate_citations report ≡ ok tt
      → Saved report seen rows (save_commit codec report seen rows)
  unfolding save_commit
  save_commit-Saved report seen rows cited =
      from_row (find_incident codec report.incident_id seen) refl
    where
      from_update :
          (row : IncidentRow Text) (i : Incident)
          → Seen report.incident_id seen row i
          → i.report ≡ none
          → (v : Result (Unit {0})) → validate_report_scope (with_report i report) ≡ v
          → Saved report seen rows
              (publish_checked codec v report.incident_id row.payload (with_report i report) rows)
      from_update row i s open_ (err e) scope = absurd (
          cc (
            scope,
            in_scope i report (
                (decode_parts codec row i s.stored).1
                ∙ found_incident report.incident_id seen row s.found),
          ))
      from_update row i s open_ (ok tt) scope =
          elim (Bool-cases (any (row_matches codec report.incident_id row.payload) rows)) [
            | inr lost ↦ rw lost (refl, row, i, s, open_, lost)
            | inl won ↦ rw won (
              row,
              i,
              s,
              inr (
                record {
                  stored = (decode_parts codec row i s.stored).0;
                  same_id =
                      (decode_parts codec row i s.stored).1
                      ∙ found_incident report.incident_id seen row s.found;
                  unreported = open_;
                  valid = incident_valid-with i report cited scope;
                },
                won,
                refl,
                refl,
              ),
            )
          ]

      from_entry :
          (row : IncidentRow Text)
          → find_incident codec report.incident_id seen ≡ some row
          → (x : Result Incident) → decode_incident codec row ≡ x
          → Saved report seen rows (save_over codec report row.payload x rows)
      from_entry row f (err e) d = (refl, λ row' i s. cc (some_inj (sym f ∙ s.found), s.stored, d))
      from_entry row f (ok i) d = elim (Option-cases i.report) [
        | inl open_ ↦ rw open_ (
            from_update row i (record { found = f; stored = d }) open_
              (validate_report_scope (with_report i report)) refl)
        | inr (old, closed) ↦
            rw closed (row, i, record { found = f; stored = d }, inl (refl, refl, λ e. cc))
      ]

      from_row :
          (x : Option (IncidentRow Text))
          → find_incident codec report.incident_id seen ≡ x
          → Saved report seen rows (save_seen codec report x rows)
      from_row none f = (refl, λ row i s. cc (f, s.found))
      from_row (some row) f = from_entry row f (decode_incident codec row) refl
