-- ===== src/Remediation/Examples.antt =====
-- Concrete values of the types of src/payops/remediation/: an action on its way from the proposal
-- to the effect, the host that serves it, and tables that satisfy the invariant.
use pay_ops.Base.Table.{Codec}
use pay_ops.Base.{
  ◌+◌, String, true, refl, none, some, [], ◌∷◌, Eq, discrete_eq, Option-discrete, Time, seconds,
  ℕ_discrete, String_discrete, if◌then◌else◌, ◌==◌, string_eq,
}
use pay_ops.Base.Result.{ok}
use pay_ops.Contracts.{
  EvidenceItem, kubernetes, IncidentReport, TerminalState, ReportMode, RankingMethod, Severity,
}
use pay_ops.Policy.Records.{
  Role, Principal, Action, OperationMode, ActionType, ResourceKind, Action-discrete,
}
use pay_ops.Policy.External.{Platform}
use pay_ops.Policy.{PolicyContext, action_digest, WindowStatus}
use pay_ops.Remediation.Records.{
  ActionState, ActionState-discrete, Approval, Outcome, EffectReceipt, ActionRecord,
}
use pay_ops.Remediation.Store.{Db}
use pay_ops.Remediation.Store.Invariant.{IsValid}
use pay_ops.Remediation.Store.Claims.{here}
use pay_ops.Remediation.Host.{Host}

abbrev pub restart : Action
restart = record {
  incident_id = "inc-1";
  namespace = "payops-sandbox";
  service = "payments-api";
  resource_uid = "uid-1";
  expected_version = "7";
  evidence_ids = "ev-1" ∷ [];
  mode = OperationMode.local_kind;
  action_type = ActionType.restart_deployment;
}

-- JSON values that are actions already, and an action's incident as its digest.
abbrev pub plain_platform : Platform Action
plain_platform = record {
  read_action = λ a. some a;
  write_action = λ a. a;
  canonical_json = λ a. a.incident_id;
  sha256_hex = λ s. s;
  read-write = λ a. refl;
}

unfoldable pub Outcome-discrete : Discrete Outcome
Outcome-discrete = hlevel

unfoldable pub Approval-discrete : Discrete Approval
Approval-discrete = hlevel (ℕ_discrete, String_discrete)

unfoldable pub EffectReceipt-discrete : Discrete EffectReceipt
EffectReceipt-discrete = hlevel (Outcome-discrete, String_discrete, Option-discrete String_discrete)

unfoldable pub ActionRecord-discrete : Discrete ActionRecord
ActionRecord-discrete = hlevel (
  ℕ_discrete,
  String_discrete,
  Action-discrete,
  ActionState-discrete,
  Option-discrete Approval-discrete,
  Option-discrete EffectReceipt-discrete,
)

instance abbrev pub action_record_eq : Eq ActionRecord
action_record_eq = discrete_eq ActionRecord-discrete

-- Payloads that are records already.
abbrev pub plain_codec : Codec ActionRecord ActionRecord
plain_codec = record { write = λ r. r; read = λ r. some r; read-write = λ r. refl }

abbrev pub plain_digest : Action → String
plain_digest = action_digest plain_platform

abbrev pub noon : Time
noon = seconds 1000000

abbrev pub restart_proposed : ActionRecord
restart_proposed = record {
  action_id = "inc-1";
  proposal = restart;
  proposer = "ann";
  state = ActionState.proposed;
  revision = 0;
  created_at = noon;
  updated_at = noon;
  approval = none;
  result = none;
}

abbrev pub bob_approval : Approval
bob_approval = record {
  subject = "bob";
  action_digest = "inc-1";
  approved_at = noon;
  expires_at = noon + seconds 300;
}

abbrev pub empty_db : Db ActionRecord
empty_db = record { actions = []; audit = [] }

pub empty_db-IsValid : IsValid plain_digest plain_codec empty_db
empty_db-IsValid = record { backed = λ id text found. absurd (cc); unaudited = λ id missing. refl }

abbrev role_of : String → Role
role_of subject =
    if subject == "ann"
    then Role.responder
    else if subject == "bob"
    then Role.approver
    else Role.executor

abbrev principal_of : String → Principal
principal_of subject = record {
  subject = subject;
  roles = role_of subject ∷ [];
  namespaces = "payops-sandbox" ∷ [];
  verified_at = noon;
  expires_at = noon + seconds 3600;
  enabled = true;
}

abbrev pub pod_status : EvidenceItem
pod_status = record {
  evidence_id = "ev-1";
  incident_id = "inc-1";
  source = kubernetes;
  observed_at = noon;
  collected_at = noon;
  query = "pods";
  resource = "payments-api";
  artifact_uri = "file:///ev-1";
  artifact_sha256 = "00";
  summary = "restarting";
}

abbrev pub report : IncidentReport
report = record {
  incident_id = "inc-1";
  evidence = pod_status ∷ [];
  ranked_root_causes = [];
  terminal_state = TerminalState.escalated;
  mode = ReportMode.local_kind;
  duration_seconds = 1;
  ranking_method = RankingMethod.deterministic;
  reasoning_stop_reason = none;
  reasoning_receipts = [];
  trace_id = "t";
}

abbrev pub restart_context : PolicyContext
restart_context = record {
  principal = some (principal_of "ann");
  incident = record {
    incident_id = "inc-1";
    request = record {
      title = "t";
      namespace = "payops-sandbox";
      service = "payments-api";
      severity = Severity.critical;
    };
    created_at = noon;
    report = some report;
  };
  resource = record {
    namespace = "payops-sandbox";
    service = "payments-api";
    uid = "uid-1";
    version = "7";
    observed_at = noon;
    kind = ResourceKind.deployment;
    synthetic = true;
    replicas = 1;
    approved_revisions = [];
    mode = OperationMode.local_kind;
  };
  store = record {
    verify = λ item. ok tt;
    verify_payment_window = λ item. ok WindowStatus.complete;
  };
}

-- A host whose clock stands still and whose backend restarts the deployment.
abbrev pub calm_host : Host (Unit {0}) plain_digest plain_codec
calm_host = record {
  clock = λ e. (noon, e);
  principal = λ subject e. (ok (some (principal_of subject)), e);
  context = λ a subject e. (ok restart_context, e);
  execute = λ a key e. (
    ok (record {
      outcome = Outcome.succeeded;
      resource_uid = a.resource_uid;
      previous_version = a.expected_version;
      resulting_version = some "8";
    }),
    e,
  );
  clock-Run = λ e. here;
  principal-Run = λ s e. here;
  context-Run = λ a s e. here;
  execute-Run = λ a s e. here;
}
