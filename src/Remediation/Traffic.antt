-- ===== src/Remediation/Traffic.antt =====
-- src/payops/remediation/traffic_control.py: admission of synthetic traffic and its pause. A row of
-- `synthetic_traffic_control` stands under its uid; each method's UPDATE is one step.
pub mod Pausing
mod Tests
use pay_ops.Base.{
  ℕ, ◌+◌, String, Bool, true, false, not, ◌&&◌, ◌||◌, Option, none, some, List, [], ◌∷◌, ◌==◌, ◌!=◌,
  string_eq, if◌then◌else◌, Time,
}
use pay_ops.Base.Result.{Result, ok, err, permission, value_error, other, raise_if, ◌>>=◌, ◌>>◌}
use pay_ops.Base.Action.{Exec}
use pay_ops.Base.Table.{find_row, set_row}
use pay_ops.Policy.Records.{
  OperationMode, local_kind, fixture_replay, operation_mode_eq, ResourceKind, ResourceSnapshot,
  Action, ActionType, pause_synthetic_traffic, action_valid,
}
use pay_ops.Remediation.Records.{EffectReceipt, Outcome}

pub record TrafficRow : Type 0 where
  pub service : String
  pub mode : OperationMode
  pub version : ℕ
  pub paused : Bool
  pub admitted : ℕ

abbrev pub Table : Type 0
Table = List (String × TrafficRow)

-- `service not in {...} or mode not in {...}`
abbrev pub out_of_scope : String → OperationMode → Bool
out_of_scope service mode =
    not (service == "payments-api" || service == "webhook-sim")
    || not (mode == local_kind || mode == fixture_replay)

abbrev pub insert_row : String → TrafficRow → Option TrafficRow → Exec Table String
insert_row uid row none rows = (ok uid, (uid, row) ∷ rows)
insert_row uid row (some _) rows = (err other, rows)

-- `TrafficControl.register`, with the uid that `uuid4` gave.
unfoldable pub register : String → String → OperationMode → Exec Table String
register uid service mode rows =
    if out_of_scope service mode
    then (err (permission "TRAFFIC_SCOPE_DENIED"), rows)
    else insert_row uid
        (record { service = service; mode = mode; version = 0; paused = false; admitted = 0 })
        (find_row uid rows) rows

abbrev pub is_pause : ActionType → Bool
is_pause pause_synthetic_traffic = true
is_pause _ = false

-- The `WHERE` of admission.
abbrev pub open_for : String → OperationMode → TrafficRow → Bool
open_for service mode r = r.service == service && r.mode == mode && not r.paused

abbrev pub admit_row : String → String → OperationMode → Option TrafficRow → Exec Table Bool
admit_row uid service mode none rows = (ok false, rows)
admit_row uid service mode (some r) rows =
    if open_for service mode r
    then (ok true, set_row uid (record r { admitted = r.admitted + 1 }) rows)
    else (ok false, rows)

-- `TrafficControl.admit`
unfoldable pub admit : String → String → OperationMode → Exec Table Bool
admit uid service mode rows =
    if out_of_scope service mode
    then (err (permission "TRAFFIC_SCOPE_DENIED"), rows)
    else admit_row uid service mode (find_row uid rows) rows

-- Python's `str` of a number, and the digest of an action.
module _ (show : ℕ → String) (digest : Action → String) where
  abbrev pub snapshot_row : Action → Time → Option TrafficRow → Result ResourceSnapshot
  snapshot_row a now none = err (permission "TRAFFIC_SCOPE_DENIED")
  snapshot_row a now (some r) = do
    raise_if (r.service != a.service || r.mode != a.mode || a.namespace != "payops-sandbox")
        (permission "TRAFFIC_SCOPE_DENIED")
    ok (record {
      namespace = "payops-sandbox";
      service = r.service;
      uid = a.resource_uid;
      version = show r.version;
      observed_at = now;
      kind = ResourceKind.traffic;
      synthetic = true;
      replicas = if r.paused then 0 else 1;
      approved_revisions = [];
      mode = a.mode;
    })

  -- `TrafficControl.snapshot`
  unfoldable pub snapshot : Action → Time → Table → Result ResourceSnapshot
  snapshot a now rows = do
    raise_if (not (action_valid a)) value_error
    raise_if (not (is_pause a.action_type)) (permission "TRAFFIC_ACTION_DENIED")
    snapshot_row a now (find_row a.resource_uid rows)

  abbrev pub pause_row : Action → Option TrafficRow → Exec Table EffectReceipt
  pause_row a none rows = (err (permission "TRAFFIC_PRECONDITION_FAILED"), rows)
  pause_row a (some r) rows =
      if open_for a.service a.mode r && show r.version == a.expected_version
      then (
        ok (record {
          outcome = Outcome.succeeded;
          resource_uid = a.resource_uid;
          previous_version = a.expected_version;
          resulting_version = some (show (r.version + 1));
        }),
        set_row a.resource_uid (record r { paused = true; version = r.version + 1 }) rows,
      )
      else (err (permission "TRAFFIC_PRECONDITION_FAILED"), rows)

  abbrev pub pause_checked : Result (Unit {0}) → Action → Exec Table EffectReceipt
  pause_checked (err e) a rows = (err e, rows)
  pause_checked (ok _) a rows = pause_row a (find_row a.resource_uid rows) rows

  -- `TrafficControl.pause`
  unfoldable pub pause : Action → String → Time → Exec Table EffectReceipt
  unfolding snapshot
  pause a key now rows =
      pause_checked
        (snapshot a now rows >>= λ _.
          raise_if (key != digest a) (permission "TRAFFIC_DIGEST_MISMATCH"))
        a rows
