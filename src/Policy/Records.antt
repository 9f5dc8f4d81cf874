-- ===== src/Policy/Records.antt =====
-- src/payops/policy/contracts.py: the action proposals, the identities and resource states that
-- they are judged by, and the review. Pattern and length constraints of single text fields are
-- pydantic's; the bounds on numbers and on the sizes of tuples are `action_valid`.
use pay_ops.Base.{
  ℕ, String, Bool, true, ◌&&◌, Option, List, Eq, string_eq, leb, discrete_eq, length, distinct,
  Time, ℕ_discrete, String_discrete,
}

pub data Role : Type 0 where
  viewer responder approver executor : Role

unfoldable pub Role-discrete : Discrete Role
Role-discrete = hlevel

instance abbrev pub role_eq : Eq Role
role_eq = discrete_eq Role-discrete

pub data OperationMode : Type 0 where
  local_kind cloud_gke fixture_replay : OperationMode

unfoldable pub OperationMode-discrete : Discrete OperationMode
OperationMode-discrete = hlevel

instance abbrev pub operation_mode_eq : Eq OperationMode
operation_mode_eq = discrete_eq OperationMode-discrete

pub record Principal : Type 0 where
  pub subject : String
  pub roles : List Role
  pub namespaces : List String
  pub verified_at : Time
  pub expires_at : Time
  pub enabled : Bool

pub data ResourceKind : Type 0 where
  deployment traffic : ResourceKind

unfoldable pub ResourceKind-discrete : Discrete ResourceKind
ResourceKind-discrete = hlevel

instance abbrev pub resource_kind_eq : Eq ResourceKind
resource_kind_eq = discrete_eq ResourceKind-discrete

pub record ResourceSnapshot : Type 0 where
  pub namespace : String
  pub service : String
  pub uid : String
  pub version : String
  pub observed_at : Time
  pub kind : ResourceKind
  pub synthetic : Bool
  pub replicas : ℕ
  pub approved_revisions : List String
  pub mode : OperationMode

-- The four subclasses of `ActionBase`, each with the field that it adds.
pub data ActionType : Type 0 where
  restart_deployment : ActionType
  scale_deployment : (replicas : ℕ) → ActionType
  rollback_deployment : (revision_sha256 : String) → ActionType
  pause_synthetic_traffic : ActionType

unfoldable pub ActionType-discrete : Discrete ActionType
ActionType-discrete = hlevel (ℕ_discrete, String_discrete)

pub record Action : Type 0 where
  pub incident_id : String
  pub namespace : String
  pub service : String
  pub resource_uid : String
  pub expected_version : String
  pub evidence_ids : List String
  pub mode : OperationMode
  pub action_type : ActionType

unfoldable pub Action-discrete : Discrete Action
Action-discrete = hlevel (String_discrete, OperationMode-discrete, ActionType-discrete)

instance abbrev pub action_eq : Eq Action
action_eq = discrete_eq Action-discrete

-- `Field(ge=1, le=3)` of `ScaleAction.replicas`.
unfoldable pub replicas_valid : ActionType → Bool
replicas_valid (scale_deployment n) = leb 1 n && leb n 3
replicas_valid _ = true

-- The size of `evidence_ids` and `ActionBase.distinct_evidence`.
unfoldable pub action_valid : Action → Bool
unfolding replicas_valid
action_valid a =
    leb 1 (length a.evidence_ids)
    && leb (length a.evidence_ids) 8
    && distinct a.evidence_ids
    && replicas_valid a.action_type

pub data Decision : Type 0 where
  deny approval_required : Decision

pub data RiskTier : Type 0 where
  r2 r3 : RiskTier

pub record PolicyReview : Type 0 where
  pub decision : Decision
  pub reason : String
  pub risk_tier : Option RiskTier
  pub proposal : Option Action
  pub action_digest : Option String
