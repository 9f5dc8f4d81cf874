-- ===== src/Remediation/Traffic/Tests.antt =====
-- A traffic source of src/payops/remediation/traffic_control.py that is paused once.
use pay_ops.Base.{ℕ, String, true, false, ◌≡◌, ◌≢◌, refl, some, [], ◌∷◌}
use pay_ops.Base.Result.{ok}
use pay_ops.Policy.Records.{Action, ActionType, OperationMode, action_valid, OperationMode-discrete}
use pay_ops.Remediation.Records.{EffectReceipt, Outcome}
use pay_ops.Remediation.Traffic.{TrafficRow, admit, pause}
use pay_ops.Remediation.Traffic.Pausing.{Run, admit_after_pause}
use pay_ops.Remediation.Examples.{noon}

abbrev show : ℕ → String
show n = "0"

abbrev digest : Action → String
digest a = a.incident_id

abbrev pause_traffic : Action
pause_traffic = record {
  incident_id = "inc-1";
  namespace = "payops-sandbox";
  service = "payments-api";
  resource_uid = "t-1";
  expected_version = "0";
  evidence_ids = "ev-1" ∷ [];
  mode = OperationMode.local_kind;
  action_type = ActionType.pause_synthetic_traffic;
}

abbrev running : TrafficRow
running = record {
  service = "payments-api";
  mode = OperationMode.local_kind;
  version = 0;
  paused = false;
  admitted = 3;
}

abbrev stopped : TrafficRow
stopped = record {
  service = "payments-api";
  mode = OperationMode.local_kind;
  version = 1;
  paused = true;
  admitted = 3;
}

abbrev paused_receipt : EffectReceipt
paused_receipt = record {
  outcome = Outcome.succeeded;
  resource_uid = "t-1";
  previous_version = "0";
  resulting_version = some "0";
}

traffic-paused :
    pause show digest pause_traffic "inc-1" noon (("t-1", running) ∷ [])
    ≡ (ok paused_receipt, ("t-1", stopped) ∷ [])
unfolding pause action_valid OperationMode-discrete
traffic-paused = refl

admit_after_pause_example :
    (admit "t-1" "payments-api" OperationMode.local_kind (("t-1", stopped) ∷ [])).0 ≢ ok true
admit_after_pause_example =
    admit_after_pause show digest pause_traffic "inc-1" "payments-api" OperationMode.local_kind noon
      paused_receipt (("t-1", running) ∷ []) (("t-1", stopped) ∷ []) (("t-1", stopped) ∷ [])
      traffic-paused Run.here
