-- ===== src/Remediation/Store.antt =====
-- src/payops/remediation/store.py: the SQL table of actions and its audit table. A row's payload is
-- JSON text that is compared as a whole; each method is one transaction, which commits all of its
-- writes or none. SQLAlchemy and the database are modelled by what the methods use of them: lookup
-- by primary key, insertion that fails on a duplicate key, and a conditional update.
pub mod Rows
pub mod Trail
pub mod Invariant
pub mod Outcomes
pub mod Passing
pub mod Claims
pub mod Book
pub mod Holding
pub mod Refinement
mod Tests
use pay_ops.Base.Table.{Codec, find_row, set_row}
use pay_ops.Base.{
  ℕ, zero, ◌+◌, String, Bool, true, false, not, ◌&&◌, ◌||◌, ◌≡◌, Option, none, some, List, [], ◌∷◌,
  Eq, ◌==◌, ◌!=◌, string_eq, nat_eq, if◌then◌else◌, contains, Time, leb,
}
use pay_ops.Base.Result.{
  Result, ok, err, Error, permission, value_error, key_error, transition_conflict, other, raise_if,
  ◌>>=◌, ◌>>◌,
}
use pay_ops.Base.Action.{Exec}
use pay_ops.Policy.Records.{Action, action_eq}
use pay_ops.Remediation.Records.{
  ActionState, proposed, approved, executing, succeeded, failed, unknown, action_state_eq, Approval,
  EffectReceipt, ActionRecord, AuditEvent, validate_record, is_proposed,
}

pub record AuditRow : Type 0 where
  pub action_id : String
  pub revision : ℕ
  pub event : AuditEvent

-- The tables `remediation_actions` and `remediation_audit`, newest audit row first.
pub record Db (Text : Type 0) : Type 0 where
  pub actions : List (String × Text)
  pub audit : List AuditRow

-- `TRANSITIONS`
abbrev pub transitions : ActionState → List ActionState
transitions proposed = approved ∷ []
transitions approved = executing ∷ []
transitions executing = succeeded ∷ failed ∷ unknown ∷ []
transitions succeeded = []
transitions failed = []
transitions unknown = []

-- Whether the audit table holds the composite primary key already.
abbrev pub audited : String → ℕ → List AuditRow → Bool
audited id revision [] = false
audited id revision (row ∷ rows) =
    (row.action_id == id && row.revision == revision) || audited id revision rows

-- `ActionStore._audit`: the event and its row.
abbrev pub audit_row : ActionRecord → String → String → AuditRow
audit_row r actor reason = record {
  action_id = r.action_id;
  revision = r.revision;
  event = record {
    action_id = r.action_id;
    revision = r.revision;
    state = r.state;
    actor = actor;
    reason = reason;
    recorded_at = r.updated_at;
  };
}

abbrev pub or_before : {A : Type 0} → Option A → Option A → Option A
or_before (some a) before = some a
or_before none before = before

-- The record that `transition` validates: the old one with the new values.
abbrev pub moved :
    ActionRecord → ActionState → Option Approval → Option EffectReceipt → Time → ActionRecord
moved before state approval result now = record before {
  state = state;
  revision = before.revision + 1;
  updated_at = now;
  approval = or_before approval before.approval;
  result = result;
}

module _ {Text : Type 0} ⦃text_eq : Eq Text⦄ (digest : Action → String)
    (codec : Codec ActionRecord Text) where
  -- `ActionRecord.model_validate_json`
  unfoldable pub read_record : Text → Result ActionRecord
  read_record text = elim (codec.read text) [
    | none ↦ err value_error
    | some r ↦ (validate_record digest r >>= λ _. ok r)
  ]

  -- `ActionStore.get`, by the row found.
  abbrev pub get_row : String → Option Text → Result ActionRecord
  get_row id none = err key_error
  get_row id (some text) =
      (read_record text >>= λ r. (raise_if (r.action_id != id) value_error >>= λ _. ok r))

  unfoldable pub get : String → Db Text → Result ActionRecord
  unfolding read_record
  get id db = get_row id (find_row id db.actions)

  -- The handler of `IntegrityError` in `create`.
  abbrev pub previous_proposal : ActionRecord → Db Text → Result ActionRecord
  previous_proposal r db = do
    previous ← get r.action_id db
    raise_if (previous.proposer != r.proposer || previous.proposal != r.proposal)
        (permission "proposal belongs to another identity")
    ok previous

  abbrev pub commit_new : ActionRecord → Bool → Exec (Db Text) ActionRecord
  commit_new r true db = (previous_proposal r db, db)
  commit_new r false db = (
    ok r,
    record {
      actions = (r.action_id, codec.write r) ∷ db.actions;
      audit = audit_row r r.proposer "POLICY_REVIEWED" ∷ db.audit;
    },
  )

  -- Whether the commit of the two new rows raises `IntegrityError`.
  abbrev pub taken : ActionRecord → Db Text → Bool
  taken r db =
      (elim (find_row r.action_id db.actions) [ none ↦ false | some _ ↦ true ])
      || audited r.action_id r.revision db.audit

  unfoldable pub create : ActionRecord → Exec (Db Text) ActionRecord
  unfolding get
  create r db =
      if not (is_proposed r.state) || r.revision != 0
      then (err value_error, db)
      else commit_new r (taken r db) db

  -- `UPDATE ... WHERE action_id = ... AND payload = ...`: whether a row matched.
  abbrev pub current : ActionRecord → Db Text → Bool
  current before db = elim (find_row before.action_id db.actions) [
    | none ↦ false
    | some payload ↦ payload == codec.write before
  ]

  abbrev pub publish : ActionRecord → ActionRecord → String → String → Exec (Db Text) ActionRecord
  publish before after actor reason db =
      if not (current before db)
      then (err transition_conflict, db)
      else if audited after.action_id after.revision db.audit
      then (err other, db)
      else (
        ok after,
        record {
          actions = set_row before.action_id (codec.write after) db.actions;
          audit = audit_row after actor reason ∷ db.audit;
        },
      )

  -- `transition`, once the new record has been validated.
  abbrev pub publish_valid :
      Result (Unit {0})
      → ActionRecord
      → ActionRecord
      → String
      → String
      → Exec (Db Text) ActionRecord
  publish_valid (ok _) before after actor reason db = publish before after actor reason db
  publish_valid (err e) before after actor reason db = (err e, db)

  unfoldable pub transition :
      ActionRecord
      → ActionState
      → String
      → String
      → Option Approval
      → Option EffectReceipt
      → Time
      → Exec (Db Text) ActionRecord
  transition before state actor reason approval result now db =
      let after = moved before state approval result now in
      if not (contains state (transitions before.state))
      then (err transition_conflict, db)
      else publish_valid (validate_record digest after) before after actor reason db

-- `ORDER BY revision`
abbrev pub insert_row : AuditRow → List AuditRow → List AuditRow
insert_row row [] = row ∷ []
insert_row row (next ∷ rows) =
    if leb row.revision next.revision then row ∷ next ∷ rows else next ∷ insert_row row rows

abbrev pub by_revision : List AuditRow → List AuditRow
by_revision [] = []
by_revision (row ∷ rows) = insert_row row (by_revision rows)

-- The rows `WHERE action_id = ...`.
abbrev pub history : String → List AuditRow → List AuditRow
history id [] = []
history id (row ∷ rows) = if row.action_id == id then row ∷ history id rows else history id rows

-- `ActionStore._read_event`
unfoldable pub read_event : AuditRow → Result AuditEvent
read_event row =
    if row.event.action_id != row.action_id || row.event.revision != row.revision
    then err value_error
    else ok row.event

abbrev pub read_events : List AuditRow → Result (List AuditEvent)
read_events [] = ok []
read_events (row ∷ rows) = do event ← read_event row; events ← read_events rows; ok (event ∷ events)

-- `ActionStore.audit`
unfoldable pub audit : {Text : Type 0} → String → Db Text → Result (List AuditEvent)
unfolding read_event
audit id db = read_events (by_revision (history id db.audit))
