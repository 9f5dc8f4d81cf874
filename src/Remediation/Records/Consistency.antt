-- ===== src/Remediation/Records/Consistency.antt =====
-- `ActionRecord.consistent` of src/payops/remediation/contracts.py against its statement.
use pay_ops.Base.{
  ◌+◌, ◌≤◌, ◌<◌, String, true, false, not, ◌≡◌, ◌≢◌, ◌↔◌, refl, Option, none, some, ◌!=◌, string_eq,
  bool_eq, seconds, arith, Bool-cases, inl, inr, if◌then◌else◌,
}
use pay_ops.Base.Result.{ok, value_error, raise_if, raise_if-then, >>-eq-ok}
use pay_ops.Policy.Records.{Action}
use pay_ops.Remediation.Records.{
  ActionState, proposed, action_state_eq, Approval, EffectReceipt, outcome_state, ActionRecord,
  is_proposed, is_settled, is_none, validate_approval, check_approval, check_receipt, check_result,
  consistent,
}

-- A second person approved this action, for at most five minutes.
pub record IsApproval (r : ActionRecord) (a : Approval) : Type 0 where
  pub second_person : a.subject ≢ r.proposer
  pub same_action : a.action_digest ≡ r.action_id
  pub nonempty : a.approved_at < a.expires_at
  pub bounded : a.expires_at ≤ a.approved_at + seconds 300

-- A proposed record has no approval, and every other record has one.
abbrev pub ApprovalFits : ActionRecord → Option Approval → Type 0
ApprovalFits r none = r.state ≡ proposed
ApprovalFits r (some a) = (r.state ≢ proposed) × IsApproval r a

pub record IsReceipt (r : ActionRecord) (e : EffectReceipt) : Type 0 where
  pub same_outcome : outcome_state e.outcome ≡ r.state
  pub same_resource : e.resource_uid ≡ r.proposal.resource_uid
  pub same_version : e.previous_version ≡ r.proposal.expected_version

-- A settled record has a receipt of its outcome and its preconditions, and no other record has
-- one.
abbrev pub ResultFits : ActionRecord → Option EffectReceipt → Type 0
ResultFits r none = is_settled r.state ≡ false
ResultFits r (some e) = (is_settled r.state ≡ true) × IsReceipt r e

pub record IsConsistent (digest : Action → String) (r : ActionRecord) : Type 0 where
  pub identity : r.action_id ≡ digest r.proposal
  pub approval : ApprovalFits r r.approval
  pub result : ResultFits r r.result

validate_approval_iff :
    (r : ActionRecord) (a : Approval) → (validate_approval r a ≡ ok tt) ↔ IsApproval r a
unfolding validate_approval
validate_approval_iff r a =
    ground
      (arith, string_eq.beq_iff a.subject r.proposer, string_eq.beq_iff a.action_digest r.action_id)

is_proposed_iff : (s : ActionState) → (is_proposed s ≡ true) ↔ (s ≡ proposed)
is_proposed_iff s = ground arith

approval_iff :
    (r : ActionRecord) (o : Option Approval)
    → ((is_proposed r.state != is_none o) ≡ false) × (check_approval r o ≡ ok tt) ↔ ApprovalFits r o
approval_iff r none = ground (arith, is_proposed_iff r.state)
approval_iff r (some a) = ground (arith, is_proposed_iff r.state, validate_approval_iff r a)

check_receipt_iff :
    (r : ActionRecord) (e : EffectReceipt) → (check_receipt r (some e) ≡ ok tt) ↔ IsReceipt r e
unfolding check_receipt
check_receipt_iff r e = ground (
  arith,
  action_state_eq.beq_iff (outcome_state e.outcome) r.state,
  string_eq.beq_iff e.resource_uid r.proposal.resource_uid,
  string_eq.beq_iff e.previous_version r.proposal.expected_version,
)

result_iff :
    (r : ActionRecord) (o : Option EffectReceipt)
    → ((if is_settled r.state then check_receipt r o else raise_if (not (is_none o)) value_error)
        ≡ ok tt)
      ↔ ResultFits r o
unfolding check_receipt
result_iff r none = elim (Bool-cases (is_settled r.state)) [
  | inl s ↦ rw s (λ h. absurd (cc), λ h. absurd (cc))
  | inr s ↦ rw s (λ h. refl, λ h. refl)
]
result_iff r (some e) = elim (Bool-cases (is_settled r.state)) [
  | inl s ↦ rw s (λ h. (refl, (check_receipt_iff r e).0 h), λ h. (check_receipt_iff r e).1 h.1)
  | inr s ↦ rw s (λ h. absurd (cc), λ h. absurd (cc))
]

identity_iff :
    (digest : Action → String) (r : ActionRecord)
    → ((r.action_id != digest r.proposal) ≡ false) ↔ (r.action_id ≡ digest r.proposal)
identity_iff digest r = ground (arith, string_eq.beq_iff r.action_id (digest r.proposal))

-- The validators accept a record exactly when its id is the digest of its proposal, its approval
-- fits its state and binds a second person for at most five minutes, and its receipt fits its
-- state and its preconditions.
pub consistent_iff :
    (digest : Action → String) (r : ActionRecord)
    → (consistent digest r ≡ ok tt) ↔ IsConsistent digest r
unfolding consistent check_result
consistent_iff digest r = (
  λ h.
      let (i, rest) = (raise_if-then _ _ _).0 h in
      let (p, rest) = (raise_if-then _ _ _).0 rest in
      let (a, b) = (>>-eq-ok _ _).0 rest in
      record {
        identity = (identity_iff digest r).0 i;
        approval = (approval_iff r r.approval).0 (p, a);
        result = (result_iff r r.result).0 b;
      },
  λ c. (raise_if-then _ _ _).1 (
    (identity_iff digest r).1 c.identity,
    (raise_if-then _ _ _).1 (
      ((approval_iff r r.approval).1 c.approval).0,
      (>>-eq-ok _ _).1
          (((approval_iff r r.approval).1 c.approval).1, (result_iff r r.result).1 c.result),
    ),
  ),
)
