-- ===== src/Memory/Incidents/Settling.antt =====
-- The update of `IncidentStore.save_report` in src/payops/memory/store.py, on the incident of its report.
use pay_ops.Base.{
  String, Bool, true, false, ◌≡◌, ◌≢◌, refl, sym, ap, ◌∙◌, subst, Option, none, some, List, [], ◌∷◌,
  In, Eq, string_eq, any, arith, Bool-cases, some_inj, ◌⊎◌, inl, inr,
}
use pay_ops.Base.Result.{Result, ok, err, ok_inj}
use pay_ops.Base.Table.{Codec}
use pay_ops.Contracts.{IncidentReport, Incident, validate_citations}
use pay_ops.Memory.Incidents.{
  IncidentRow, with_report, Table, find_incident, decode_incident, row_matches, set_payload,
  update_rows, get_incident, save_commit,
}
use pay_ops.Memory.Incidents.Rows.{
  by_id, selects, Stays, Publishes, find_test, find-map_same, selects-set_payload, decode_from,
  read_incident-write,
}
use pay_ops.Memory.Incidents.Outcomes.{Saved, save_commit-Saved, Seen}
use pay_ops.Memory.Incidents.Runs.{Run, Run-Stays}
use pay_ops.Memory.Incidents.Creation.{IsIndexed, Kept, Stays-Kept}
use pay_ops.Memory.Incidents.Reports.{IsSettled, get-found, found-get, found_any, Run-IsSettled}

any-In :
    {A : Type 0} (p : A → Bool) (xs : List A) → any p xs ≡ true → (x : A) × In x xs × (p x ≡ true)
any-In p [] h = absurd (cc)
any-In p (y ∷ ys) h = elim (Bool-cases (p y)) [
  | inl e ↦ (y, inl refl, e)
  | inr e ↦ let (x, i, t) = any-In p ys (ground (arith, e, h)) in (x, inr i, t)
]

module _ {Text : Type 0} ⦃text_eq : Eq Text⦄ (codec : Codec Incident Text) where
  any_found :
      (id : String) (old : Text) (rows : Table codec)
      → IsIndexed codec rows
      → any (row_matches codec id old) rows ≡ true
      → (row : IncidentRow Text) × (find_incident codec id rows ≡ some row)
        × (row_matches codec id old row ≡ true)
  any_found id old rows v h =
      let (row, inside, m) = any-In (row_matches codec id old) rows h in
      let e : row.incident_id ≡ id = ground (arith, m, string_eq.beq_iff row.incident_id id) in
      (row, subst (λ i. find_incident codec i rows ≡ some row) e (v row inside), m)

  Seen-unique :
      (id : String) (seen : Table codec) (row row' : IncidentRow Text) (i i' : Incident)
      → Seen codec id seen row i
      → Seen codec id seen row' i'
      → i' ≡ i
  Seen-unique id seen row row' i i' s s' = ok_inj (
      sym s'.stored
      ∙ subst (λ r. decode_incident codec r ≡ ok i) (some_inj (sym s.found ∙ s'.found)) s.stored)

  -- The update of `save_report` leaves the incident with a report, its own or an earlier one.
  pub save_commit-IsSettled :
      (report : IncidentReport) (seen rows : Table codec) (i : Incident)
      → IsIndexed codec rows
      → validate_citations report ≡ ok tt
      → get_incident codec report.incident_id seen ≡ ok (some i)
      → Run codec seen rows
      → (j : Incident) × IsSettled codec report.incident_id (save_commit codec report seen rows).1 j
        × Kept i j
        × (r : Option Incident) × ((save_commit codec report seen rows).0 ≡ ok r)
        × ((r ≡ none) ⊎ (r ≡ some j))
  save_commit-IsSettled report seen rows i v cited got run =
      let (row, f, d) = found-get codec report.incident_id seen i got in
      go row (record { found = f; stored = d }) (save_commit codec report seen rows)
        (save_commit-Saved codec report seen rows cited)
    where
      closed :
          (row now : IncidentRow Text) (j : Incident)
          → Seen codec report.incident_id seen row i
          → any (row_matches codec report.incident_id row.payload) rows ≡ false
          → find_incident codec report.incident_id rows ≡ some now
          → decode_incident codec now ≡ ok j
          → Stays codec row now
          → j.report ≢ none
      closed row now j s n f d (inl e) =
          let missed =
            found_any codec report.incident_id row.payload rows row
              (subst (λ r. find_incident codec report.incident_id rows ≡ some r) e f) n in
          let here = find_test _ seen row s.found in
          absurd (cc (missed, here, (text_eq.beq_iff row.payload row.payload).1 refl))
      closed row now j s n f d (inr r) =
          let one : j ≡ with_report r.entry r.report = ok_inj (sym d ∙ r.written) in
          rw one (λ x. cc)

      lost :
          (row : IncidentRow Text)
          → Seen codec report.incident_id seen row i
          → any (row_matches codec report.incident_id row.payload) rows ≡ false
          → (j : Incident) × IsSettled codec report.incident_id rows j × Kept i j
      lost row s n =
          let (now, f, stays) = Run-Stays codec (by_id report.incident_id) row run s.found in
          let (j, d, kept) = Stays-Kept codec row now i s.stored stays in
          (
            j,
            (get-found codec report.incident_id rows now j f d, closed row now j s n f d stays),
            kept,
          )

      won :
          (row : IncidentRow Text)
          → Publishes codec report.incident_id row.payload i report
          → any (row_matches codec report.incident_id row.payload) rows ≡ true
          → IsSettled codec report.incident_id
              (update_rows codec report.incident_id row.payload
                (codec.write (with_report i report))
                rows)
              (with_report i report)
      won row p m =
          let (now, f, here) = any_found report.incident_id row.payload rows v m in
          let updated = with_report i report in
          let new = codec.write updated in
          let same : now.incident_id ≡ report.incident_id =
            ground (arith, here, string_eq.beq_iff now.incident_id report.incident_id) in
          (
            get-found codec report.incident_id _ (record now { payload = new }) updated
                (find-map_same (selects codec (by_id report.incident_id))
                    (set_payload codec report.incident_id row.payload new) rows now
                    (selects-set_payload codec (by_id report.incident_id) report.incident_id
                      row.payload new)
                    f
                  ∙ rw here refl)
                (decode_from codec (record now { payload = new }) updated
                  (read_incident-write codec updated p.valid) (p.same_id ∙ sym same)),
            λ x. cc,
          )

      go :
          (row : IncidentRow Text)
          → Seen codec report.incident_id seen row i
          → (x : Result (Option Incident) × Table codec) → Saved codec report seen rows x
          → (j : Incident) × IsSettled codec report.incident_id x.1 j
            × Kept i j
            × (r : Option Incident) × (x.0 ≡ ok r)
            × ((r ≡ none) ⊎ (r ≡ some j))
      go row s (err e, rows') (_, n) = absurd (n row i s)
      go row s (ok none, rows') (e, row', i', s', open_, m) =
          let one = Seen-unique report.incident_id seen row row' i i' s s' in
          let (j, settled, kept) =
            lost row' (subst (Seen codec report.incident_id seen row') one s') m in
          (
            j,
            subst (λ t. IsSettled codec report.incident_id t j) (sym e) settled,
            kept,
            none,
            refl,
            inl refl,
          )
      go row s (ok (some k), rows') (row', i', s', inl (e, e', closed_)) =
          let one = Seen-unique report.incident_id seen row row' i i' s s' in
          let settled =
            Run-IsSettled codec report.incident_id i run
              (got, subst (λ (x : Incident). x.report ≢ none) one closed_) in
          (
            i,
            subst (λ t. IsSettled codec report.incident_id t i) (sym e) settled,
            inl refl,
            some k,
            refl,
            inr (ap some (e' ∙ one)),
          )
      go row s (ok (some k), rows') (row', i', s', inr (p, m, e, w)) =
          let one = Seen-unique report.incident_id seen row row' i i' s s' in
          let p' = subst (λ x. Publishes codec report.incident_id row'.payload x report) one p in
          (
            with_report i report,
            subst (λ t. IsSettled codec report.incident_id t (with_report i report))
                (sym (
                  w
                  ∙ ap
                      (λ x.
                        update_rows codec report.incident_id row'.payload
                          (codec.write (with_report x report)) rows)
                      one))
                (won row' p' m),
            inr (p'.unreported, report, refl),
            some k,
            refl,
            inr (ap some (e ∙ ap (λ x. with_report x report) one)),
          )
