-- ===== src/Memory/Incidents/Racing.antt =====
-- Workers that report on one incident at the same time, with `IncidentStore.save_report` of
-- src/payops/memory/store.py.
use pay_ops.Base.{◌≡◌, ◌≢◌, refl, sym, ap, ◌∙◌, Option, none, some, Eq, ◌⊎◌, inl, inr, some_inj}
use pay_ops.Base.Result.{Result, ok, err, ok_inj, runtime_error}
use pay_ops.Base.Table.{Codec}
use pay_ops.Contracts.{IncidentReport, Incident, validate_citations}
use pay_ops.Memory.Incidents.{Table, get_incident, save_commit, save_report, reload}
use pay_ops.Memory.Incidents.Runs.{Run, here, next, saved}
use pay_ops.Memory.Incidents.Creation.{IsIndexed, Kept, Run-IsIndexed}
use pay_ops.Memory.Incidents.Reports.{IsSettled, Run-IsSettled}
use pay_ops.Memory.Incidents.Settling.{save_commit-IsSettled}

module _ {Text : Type 0} ⦃text_eq : Eq Text⦄ (codec : Codec Incident Text) where
  reload-settled :
      (c l : Result (Option Incident)) (r : Option Incident) (j : Incident)
      → c ≡ ok r
      → (r ≡ none) ⊎ (r ≡ some j)
      → l ≡ ok (some j)
      → j.report ≢ none
      → reload codec c l ≡ ok j
  reload-settled c l r j e (inr o) h n = rw (e, o) refl
  reload-settled c l r j e (inl o) h n = rw (e, o, h) (closed j.report n)
    where
      closed :
          (x : Option IncidentReport)
          → x ≢ none
          → ◌≡◌ {A = Result Incident} (elim x [ none ↦ err runtime_error | some _ ↦ ok j ]) (ok j)
      closed none n = absurd (n refl)
      closed (some _) n = refl

  settled-save_report :
      (report : IncidentReport) (seen rows later : Table codec) (j : Incident) (r : Option Incident)
      → (save_commit codec report seen rows).0 ≡ ok r
      → (r ≡ none) ⊎ (r ≡ some j)
      → IsSettled codec report.incident_id later j
      → save_report codec report seen rows later ≡ ok j
  unfolding save_report
  settled-save_report report seen rows later j r e o (got, closed) =
      reload-settled (save_commit codec report seen rows).0
        (get_incident codec report.incident_id later) r j e o got closed

  -- Saving a valid report of an incident that the first read finds always returns: whatever other
  -- workers do between its statements, it returns the incident with a report, its own or the one that
  -- came first, and that is what a read of the incident finds from then on. In the table that the
  -- update sees, every row is the one that its identifier finds.
  pub save_report-settles :
      (report : IncidentReport) (seen rows later : Table codec) (i : Incident)
      → IsIndexed codec rows
      → validate_citations report ≡ ok tt
      → get_incident codec report.incident_id seen ≡ ok (some i)
      → Run codec seen rows
      → Run codec (save_commit codec report seen rows).1 later
      → (j : Incident) × (save_report codec report seen rows later ≡ ok j)
        × (j.report ≢ none)
        × Kept i j
        × (get_incident codec report.incident_id later ≡ ok (some j))
  save_report-settles report seen rows later i v cited got before after =
      let (j, settled, kept, r, e, o) =
        save_commit-IsSettled codec report seen rows i v cited got before in
      let final = Run-IsSettled codec report.incident_id j after settled in
      (j, settled-save_report report seen rows later j r e o final, final.1, kept, final.0)

  -- The first report wins: two workers that save valid reports of one incident both get the same
  -- incident back, whatever they and others wrote between their reads and their updates, as long as
  -- the first reads of both find the incident. The table that the first update sees has every row as
  -- the one that its identifier finds.
  pub save_report_agree :
      (report report' : IncidentReport) (seen rows later seen' rows' later' : Table codec)
      (i i' : Incident)
      → IsIndexed codec rows
      → validate_citations report ≡ ok tt
      → validate_citations report' ≡ ok tt
      → report'.incident_id ≡ report.incident_id
      → get_incident codec report.incident_id seen ≡ ok (some i)
      → get_incident codec report'.incident_id seen' ≡ ok (some i')
      → Run codec seen rows
      → Run codec (save_commit codec report seen rows).1 later
      → Run codec (save_commit codec report seen rows).1 rows'
      → Run codec seen' rows'
      → Run codec (save_commit codec report' seen' rows').1 later'
      → (j : Incident) × (save_report codec report seen rows later ≡ ok j)
        × (save_report codec report' seen' rows' later' ≡ ok j)
  save_report_agree report report' seen rows later seen' rows' later' i i' v cited cited' same got
        got' before after between before' after' =
      let (j, settled, kept, r, e, o) =
        save_commit-IsSettled codec report seen rows i v cited got before in
      let v' =
        Run-IsIndexed codec between
          (Run-IsIndexed codec (next here (saved rows seen report cited)) v) in
      let (j', settled', kept', r', e', o') =
        save_commit-IsSettled codec report' seen' rows' i' v' cited' got' before' in
      let both =
        Run-IsSettled codec report.incident_id j (next between (saved rows' seen' report' cited'))
          settled in
      let one : j' ≡ j = some_inj (
        ok_inj (
          sym settled'.0
          ∙ ap (λ id. get_incident codec id (save_commit codec report' seen' rows').1) same
          ∙ both.0)) in
      let final = Run-IsSettled codec report.incident_id j after settled in
      let final' = Run-IsSettled codec report'.incident_id j' after' settled' in
      (
        j,
        settled-save_report report seen rows later j r e o final,
        settled-save_report report' seen' rows' later' j' r' e' o' final' ∙ ap ok one,
      )
