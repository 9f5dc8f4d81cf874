-- ===== src/Memory/Incidents/Tests.antt =====
-- One incident in the table of src/payops/memory/store.py: created twice with one key, and reported
-- by two workers that both read it before either writes.
use pay_ops.Base.{◌≡◌, ◌≢◌, refl, none, some, [], ◌∷◌, if◌then◌else◌, ◌==◌, inl, inr}
use pay_ops.Base.Result.{ok, err, idempotency_conflict}
use pay_ops.Base.Table.{Codec}
use pay_ops.Contracts.{
  incident_valid, IncidentCreate, IncidentReport, Incident, Severity, TerminalState,
  validate_citations, validate_report_scope,
}
use pay_ops.Memory.Incidents.{
  incident_create_eq, new_incident, Table, incident_row, get_incident, create_incident, save_commit,
  save_report,
}
use pay_ops.Memory.Incidents.Equality.{incident_eq}
use pay_ops.Memory.Incidents.Runs.{here, next, saved}
use pay_ops.Memory.Incidents.Creation.{IsIndexed, Kept, create-get_incident, create_incident_once}
use pay_ops.Memory.Incidents.Racing.{save_report-settles, save_report_agree}
use pay_ops.Remediation.Examples.{report, noon}

-- Payloads that are incidents already.
abbrev plain : Codec Incident Incident
plain = record { write = λ i. i; read = λ i. some i; read-write = λ i. refl }

abbrev alert : IncidentCreate
alert = record {
  title = "latency";
  namespace = "payops-sandbox";
  service = "payments-api";
  severity = Severity.critical;
}

abbrev opened : Incident
opened = new_incident alert "inc-1" noon

abbrev one_row : Table plain
one_row = incident_row plain opened (some "alert-1") ∷ []

abbrev later_report : IncidentReport
later_report = record report { duration_seconds = 2; terminal_state = TerminalState.unrecoverable }

no_rows-IsIndexed : IsIndexed plain []
no_rows-IsIndexed row h = absurd h

one_row-IsIndexed : IsIndexed plain one_row
one_row-IsIndexed row (inl e) = rw e refl
one_row-IsIndexed row (inr h) = absurd h

opening : create_incident plain alert (some "alert-1") "inc-1" noon [] ≡ (ok opened, one_row)
unfolding create_incident
opening = refl

cited : validate_citations report ≡ ok tt
unfolding validate_citations
cited = refl

cited_later : validate_citations later_report ≡ ok tt
unfolding validate_citations
cited_later = refl

opened_found : get_incident plain "inc-1" one_row ≡ ok (some opened)
unfolding get_incident incident_valid validate_report_scope
opened_found = refl

create-get_incident_example :
    (j : Incident) × (get_incident plain "inc-1" (save_commit plain report one_row one_row).1
      ≡ ok (some j))
    × Kept opened j
    × (j.request ≡ alert)
create-get_incident_example =
    create-get_incident plain alert (some "alert-1") "inc-1" noon [] one_row
      (save_commit plain report one_row one_row).1 opened no_rows-IsIndexed opening
      (next here (saved one_row one_row report cited))

-- The second creation has another identifier and another title.
create_incident_once_example :
    (j : Incident) × Kept opened j
    × (create_incident plain
          (record alert { title = "errors" })
          (some "alert-1")
          "inc-2"
          noon
          one_row
        ≡ (
          if alert == record alert { title = "errors" } then ok j else err idempotency_conflict,
          one_row,
        ))
create_incident_once_example =
    create_incident_once plain alert (record alert { title = "errors" }) "alert-1" "inc-1" "inc-2"
      noon noon [] one_row one_row opened opening here

save_report-settles_example :
    (j : Incident) × (save_report plain report one_row one_row
        (save_commit plain report one_row one_row).1
      ≡ ok j)
    × (j.report ≢ none)
    × Kept opened j
    × (get_incident plain "inc-1" (save_commit plain report one_row one_row).1 ≡ ok (some j))
save_report-settles_example =
    save_report-settles plain report one_row one_row (save_commit plain report one_row one_row).1
      opened one_row-IsIndexed cited opened_found here here

-- Both workers have read the incident without a report.
save_report_agree_example :
    (j : Incident) × (save_report plain report one_row one_row
        (save_commit plain report one_row one_row).1
      ≡ ok j)
    × (save_report plain later_report one_row
          (save_commit plain report one_row one_row).1
          (save_commit plain later_report one_row (save_commit plain report one_row one_row).1).1
        ≡ ok j)
save_report_agree_example =
    save_report_agree plain report later_report one_row one_row
      (save_commit plain report one_row one_row).1 one_row
      (save_commit plain report one_row one_row).1
      (save_commit plain later_report one_row (save_commit plain report one_row one_row).1).1 opened
      opened one_row-IsIndexed cited cited_later refl opened_found opened_found here here here
      (next here (saved one_row one_row report cited)) here
