-- ===== src/Remediation/Records.antt =====
-- src/payops/remediation/contracts.py: approvals, effect receipts, action records with their
-- validators, and audit events.
pub mod Consistency
mod Tests
use pay_ops.Base.{
  ℕ, ◌-◌, if◌then◌else◌, String, Bool, true, false, not, ◌&&◌, ◌||◌, Option, none, some, Eq, ◌==◌,
  ◌!=◌, ltb, bool_eq, leb, string_eq, discrete_eq, Time, seconds, ℕ_discrete, String_discrete,
  Option-discrete,
}
use pay_ops.Base.Result.{Result, ok, err, value_error, raise_if, ◌>>◌}
use pay_ops.Policy.Records.{action_valid, Action, Action-discrete}

pub data ActionState : Type 0 where
  proposed approved executing succeeded failed unknown : ActionState

unfoldable pub ActionState-discrete : Discrete ActionState
ActionState-discrete = hlevel

instance abbrev pub action_state_eq : Eq ActionState
action_state_eq = discrete_eq ActionState-discrete

pub record Approval : Type 0 where
  pub subject : String
  pub action_digest : String
  pub approved_at : Time
  pub expires_at : Time

-- `Literal["SUCCEEDED", "FAILED"]`
pub data Outcome : Type 0 where
  succeeded failed : Outcome

abbrev pub outcome_state : Outcome → ActionState
outcome_state Outcome.succeeded = ActionState.succeeded
outcome_state Outcome.failed = ActionState.failed

pub record EffectReceipt : Type 0 where
  pub outcome : Outcome
  pub resource_uid : String
  pub previous_version : String
  pub resulting_version : Option String

pub record ActionRecord : Type 0 where
  pub action_id : String
  pub proposal : Action
  pub proposer : String
  pub state : ActionState
  pub revision : ℕ
  pub created_at : Time
  pub updated_at : Time
  pub approval : Option Approval
  pub result : Option EffectReceipt

pub record AuditEvent : Type 0 where
  pub action_id : String
  pub revision : ℕ
  pub state : ActionState
  pub actor : String
  pub reason : String
  pub recorded_at : Time

abbrev pub is_proposed : ActionState → Bool
is_proposed proposed = true
is_proposed _ = false

-- `state in {"SUCCEEDED", "FAILED"}`
abbrev pub is_settled : ActionState → Bool
is_settled ActionState.succeeded = true
is_settled ActionState.failed = true
is_settled _ = false

abbrev pub is_none {ℓ} : {A : Type ℓ} → Option A → Bool
is_none none = true
is_none (some _) = false

-- `ActionRecord._validate_approval`
unfoldable pub validate_approval : ActionRecord → Approval → Result (Unit {0})
validate_approval r a = do
  raise_if (a.subject == r.proposer || a.action_digest != r.action_id) value_error
  raise_if
      (not (ltb a.approved_at a.expires_at && leb (a.expires_at - a.approved_at) (seconds 300)))
      value_error

abbrev pub check_approval : ActionRecord → Option Approval → Result (Unit {0})
check_approval r none = ok tt
check_approval r (some a) = validate_approval r a

-- The branch of `consistent` for a settled state: the receipt agrees with state and preconditions.
unfoldable pub check_receipt : ActionRecord → Option EffectReceipt → Result (Unit {0})
check_receipt r none = err value_error
check_receipt r (some e) = do
  raise_if (outcome_state e.outcome != r.state) value_error
  raise_if
      (e.resource_uid != r.proposal.resource_uid
        || e.previous_version != r.proposal.expected_version)
      value_error

unfoldable pub check_result : ActionRecord → Result (Unit {0})
unfolding check_receipt
check_result r =
    if is_settled r.state
    then check_receipt r r.result
    else raise_if (not (is_none r.result)) value_error

-- `ActionRecord.consistent`, over `action_digest`
unfoldable pub consistent : (Action → String) → ActionRecord → Result (Unit {0})
unfolding validate_approval check_result
consistent digest r = do
  raise_if (r.action_id != digest r.proposal) value_error
  raise_if (is_proposed r.state != is_none r.approval) value_error
  check_approval r r.approval
  check_result r

-- `ActionRecord.model_validate`: the proposal's own validators, and then `consistent`.
unfoldable pub validate_record : (Action → String) → ActionRecord → Result (Unit {0})
unfolding consistent
validate_record digest r = do
  raise_if (not (action_valid r.proposal)) value_error
  consistent digest r
