-- ===== src/Memory/Incidents.antt =====
-- src/payops/memory/store.py: the SQL table of incidents. A row has a unique primary key, an optional
-- unique ingestion key, and a payload of JSON text that an update compares as a whole. The fresh
-- identifier and the time of a new incident are arguments of `create`. `save_report` reads in one
-- statement, updates in a second and may read again in a third: other workers may write between them,
-- so it takes the table that each of its reads sees.
pub mod Equality
pub mod Rows
pub mod Outcomes
pub mod Runs
pub mod Creation
pub mod Reports
pub mod Settling
pub mod Racing
mod Tests
use pay_ops.Base.{
  is_some, String, Bool, true, false, not, ◌&&◌, ◌||◌, Option, none, some, List, [], ◌∷◌, map, Eq,
  ◌==◌, ◌!=◌, discrete_eq, string_eq, if◌then◌else◌, find, any, Time, String_discrete,
  Option-discrete,
}
use pay_ops.Base.Result.{
  Result, ok, err, Error, value_error, key_error, runtime_error, idempotency_conflict, other,
  raise_if, ◌>>=◌, ◌>>◌,
}
use pay_ops.Base.Action.{Exec}
use pay_ops.Base.Table.{Codec}
use pay_ops.Contracts.{
  report_valid, incident_valid, IncidentCreate, IncidentReport, Incident, Severity,
  validate_citations, validate_report_scope,
}

pub record IncidentRow (Text : Type 0) : Type 0 where
  pub incident_id : String
  pub idempotency_key : Option String
  pub payload : Text

unfoldable pub Severity-discrete : Discrete Severity
Severity-discrete = hlevel

unfoldable pub IncidentCreate-discrete : Discrete IncidentCreate
IncidentCreate-discrete = hlevel (Severity-discrete, String_discrete)

instance abbrev pub incident_create_eq : Eq IncidentCreate
incident_create_eq = discrete_eq IncidentCreate-discrete

instance abbrev pub key_eq : Eq (Option String)
key_eq = discrete_eq (Option-discrete String_discrete)

-- `Incident(request=request)`
abbrev pub new_incident : IncidentCreate → String → Time → Incident
new_incident request id now = record {
  incident_id = id;
  request = request;
  created_at = now;
  report = none;
}

-- `{**incident.model_dump(), "report": report}`
abbrev pub with_report : Incident → IncidentReport → Incident
with_report i r = record i { report = some r }

module _ {Text : Type 0} ⦃text_eq : Eq Text⦄ (codec : Codec Incident Text) where
  abbrev pub Table : Type 0
  Table = List (IncidentRow Text)

  -- `session.get(IncidentRow, incident_id)`
  abbrev pub find_incident : String → Table → Option (IncidentRow Text)
  find_incident id = find (λ row. row.incident_id == id)

  -- `select(IncidentRow).where(IncidentRow.idempotency_key == key)`
  abbrev pub find_key : Option String → Table → Option (IncidentRow Text)
  find_key key = find (λ row. row.idempotency_key == key)

  -- `Incident.model_validate_json`
  unfoldable pub read_incident : Text → Result Incident
  unfolding incident_valid
  read_incident text = elim (codec.read text) [
    | none ↦ err value_error
    | some i ↦ incident_valid i >>= λ _. ok i
  ]

  -- `IncidentStore._decode`
  unfoldable pub decode_incident : IncidentRow Text → Result Incident
  unfolding read_incident
  decode_incident row = do
    incident ← read_incident row.payload
    raise_if (incident.incident_id != row.incident_id) value_error
    ok incident

  abbrev pub decode_row : Option (IncidentRow Text) → Result (Option Incident)
  decode_row none = ok none
  decode_row (some row) = decode_incident row >>= λ i. ok (some i)

  -- `IncidentStore.get`
  unfoldable pub get_incident : String → Table → Result (Option Incident)
  unfolding decode_incident
  get_incident id rows = decode_row (find_incident id rows)

  -- Whether the commit of a new row raises `IntegrityError`; NULL keys are never equal to SQL.
  abbrev pub key_taken : Option String → Table → Bool
  key_taken none rows = false
  key_taken (some key) rows = is_some (find_key (some key) rows)

  abbrev pub incident_taken : String → Option String → Table → Bool
  incident_taken id key rows = is_some (find_incident id rows) || key_taken key rows

  -- The incident that holds the key already.
  abbrev pub previous : IncidentCreate → Option (IncidentRow Text) → Result Incident
  previous request none = err other
  previous request (some row) = do
    incident ← decode_incident row
    raise_if (incident.request != request) idempotency_conflict
    ok incident

  abbrev pub incident_row : Incident → Option String → IncidentRow Text
  incident_row i key = record {
    incident_id = i.incident_id;
    idempotency_key = key;
    payload = codec.write i;
  }

  abbrev pub commit_incident : Incident → Option String → Bool → Exec Table Incident
  commit_incident i key true rows = (previous i.request (find_key key rows), rows)
  commit_incident i key false rows = (ok i, incident_row i key ∷ rows)

  -- `IncidentStore.create`
  unfoldable pub create_incident :
      IncidentCreate → Option String → String → Time → Exec Table Incident
  unfolding decode_incident
  create_incident request key id now rows =
      commit_incident (new_incident request id now) key (incident_taken id key rows) rows

  -- `UPDATE ... WHERE incident_id = ... AND payload = ... RETURNING incident_id`
  abbrev pub row_matches : String → Text → IncidentRow Text → Bool
  row_matches id old row = row.incident_id == id && row.payload == old

  abbrev pub set_payload : String → Text → Text → IncidentRow Text → IncidentRow Text
  set_payload id old new row = if row_matches id old row then record row { payload = new } else row

  abbrev pub update_rows : String → Text → Text → Table → Table
  update_rows id old new = map (set_payload id old new)

  -- The update of `save_report`: its winner, or nothing when no row matched.
  abbrev pub publish_report : String → Text → Incident → Exec Table (Option Incident)
  publish_report id old updated rows =
      if any (row_matches id old) rows
      then (ok (some updated), update_rows id old (codec.write updated) rows)
      else (ok none, rows)

  abbrev pub publish_checked :
      Result (Unit {0}) → String → Text → Incident → Exec Table (Option Incident)
  publish_checked (err e) id old updated rows = (err e, rows)
  publish_checked (ok _) id old updated rows = publish_report id old updated rows

  -- `save_report` from the incident that its first read returned.
  abbrev pub save_over : IncidentReport → Text → Result Incident → Exec Table (Option Incident)
  save_over report old (err e) rows = (err e, rows)
  save_over report old (ok incident) rows = elim incident.report [
    | some _ ↦ (ok (some incident), rows)
    | none ↦
        publish_checked (validate_report_scope (with_report incident report)) report.incident_id old
          (with_report incident report) rows
  ]

  abbrev pub save_seen : IncidentReport → Option (IncidentRow Text) → Exec Table (Option Incident)
  save_seen report none rows = (err key_error, rows)
  save_seen report (some row) rows = save_over report row.payload (decode_incident row) rows

  -- `save_report` up to the commit: the first read sees `seen`, the update writes the last argument.
  unfoldable pub save_commit : IncidentReport → Table → Exec Table (Option Incident)
  unfolding decode_incident
  save_commit report seen rows = save_seen report (find_incident report.incident_id seen) rows

  -- The read after an update that matched no row.
  abbrev pub saved_incident : Result (Option Incident) → Result Incident
  saved_incident (err e) = err e
  saved_incident (ok none) = err runtime_error
  saved_incident (ok (some i)) = elim i.report [ none ↦ err runtime_error | some _ ↦ ok i ]

  abbrev pub reload : Result (Option Incident) → Result (Option Incident) → Result Incident
  reload (err e) later = err e
  reload (ok (some i)) later = ok i
  reload (ok none) later = saved_incident later

  -- `IncidentStore.save_report`: its result, from the tables of its three statements.
  unfoldable pub save_report : IncidentReport → Table → Table → Table → Result Incident
  unfolding save_commit get_incident
  save_report report seen rows later =
      reload (save_commit report seen rows).0 (get_incident report.incident_id later)
