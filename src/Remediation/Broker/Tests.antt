-- ===== src/Remediation/Broker/Tests.antt =====
-- An action served from its proposal to its effect by src/payops/remediation/broker.py.
use pay_ops.Base.{◌≤◌, List, [], ◌∷◌}
use pay_ops.Policy.Records.{Action, OperationMode}
use pay_ops.Remediation.Records.{ActionRecord}
use pay_ops.Remediation.Host.{Env}
use pay_ops.Remediation.Broker.Payments.{dispatched}
use pay_ops.Remediation.Broker.Session.{
  Request, proposing, approving, executing, serve_all, effects_once,
}
use pay_ops.Remediation.Examples.{
  restart, plain_platform, plain_codec, action_record_eq, calm_host, empty_db, empty_db-IsValid,
}

abbrev requests : List (Request Action)
requests =
    proposing restart "ann"
    ∷ executing "inc-1" "eve"
    ∷ approving "inc-1" "ann"
    ∷ approving "inc-1" "bob"
    ∷ executing "inc-1" "eve"
    ∷ executing "inc-1" "eve"
    ∷ []

abbrev quiet_start : Env (Unit {0}) ActionRecord
quiet_start = record { world = tt; db = empty_db }

effects_once_example :
    dispatched "inc-1"
      (serve_all plain_platform plain_codec calm_host OperationMode.local_kind requests
        (record { env = quiet_start; effects = [] })).effects
    ≤ 1
effects_once_example =
    effects_once plain_platform plain_codec calm_host OperationMode.local_kind requests quiet_start
      "inc-1" empty_db-IsValid
