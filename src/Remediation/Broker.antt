-- ===== src/Remediation/Broker.antt =====
-- src/payops/remediation/broker.py: proposal, approval and execution of actions. A call is an
-- action on the environment and on the log of effects that this broker has handed to the backend.
-- `utc_now` and the broker's clock are the host's one clock.
pub mod Quiet
pub mod Payments
pub mod Once
pub mod Session
mod Tests
use pay_ops.Base.Table.{Codec}
use pay_ops.Base.{
  ℕ, ◌+◌, ◌-◌, String, Bool, true, false, not, ◌&&◌, ◌||◌, Option, none, some, List, [], ◌∷◌, Eq,
  ◌==◌, ◌!=◌, string_eq, if◌then◌else◌, ltb, leb, contains, Time, seconds, min,
}
use pay_ops.Base.Result.{Result, ok, err, Error, permission, value_error, other}
use pay_ops.Base.Action.{Exec, pure, raise, lift, guard, try_except, ◌>>=◌, ◌>>◌}
use pay_ops.Contracts.{EvidenceItem, IncidentReport}
use pay_ops.Policy.Records.{
  Role, responder, approver, executor, OperationMode, operation_mode_eq, Principal, Action,
  PolicyReview, Decision, deny, approval_required,
}
use pay_ops.Policy.External.{Platform}
use pay_ops.Policy.{PolicyContext, identity_valid, read_proposal, action_digest, evaluate}
use pay_ops.Remediation.Records.{
  ActionState, proposed, approved, executing, unknown, action_state_eq, Approval, Outcome,
  outcome_state, EffectReceipt, ActionRecord, consistent, is_proposed,
}
use pay_ops.Remediation.Store.{Db, get, create, transition}
use pay_ops.Remediation.Host.{Env, Host}

-- One call of `TrustedBackend.execute`: the idempotency key and the action.
pub record Effect : Type 0 where
  pub key : String
  pub action : Action

pub record State (World Text : Type 0) : Type 0 where
  pub env : Env World Text
  pub effects : List Effect

-- The role tests of one refreshed identity against the requested subject.
unfoldable pub accept_identity : Option Principal → String → Role → String → Time → Result Principal
accept_identity none subject role namespace now = err (permission "IDENTITY_DENIED")
accept_identity (some p) subject role namespace now =
    if not (identity_valid (some p) role namespace now) || p.subject != subject
    then err (permission "IDENTITY_DENIED")
    else ok p

abbrev pub is_denial : Decision → Bool
is_denial deny = true
is_denial approval_required = false

-- `min(deadlines)`: thirty seconds from the resource's observation, and three hundred from either
-- time of each cited item.
unfoldable pub min_deadline : Time → List String → List EvidenceItem → Time
min_deadline deadline cited [] = deadline
min_deadline deadline cited (item ∷ items) =
    min_deadline
      (if contains item.evidence_id cited
        then min deadline (min (item.observed_at + seconds 300) (item.collected_at + seconds 300))
        else deadline)
      cited items

-- `assert context.incident.report is not None`
abbrev pub policy_deadline : PolicyContext → Action → Option IncidentReport → Result Time
policy_deadline c a none = err other
policy_deadline c a (some report) =
    ok (min_deadline (c.resource.observed_at + seconds 30) a.evidence_ids report.evidence)

-- `approval.approved_at <= now < approval.expires_at`
abbrev pub approval_current_at : Approval → Time → Bool
approval_current_at a now = leb a.approved_at now && ltb now a.expires_at

abbrev pub is_permission : Error → Bool
is_permission (permission _) = true
is_permission _ = false

abbrev pub was_dispatched : ActionState → Bool
was_dispatched proposed = false
was_dispatched approved = false
was_dispatched _ = true

abbrev pub is_approved : ActionState → Bool
is_approved approved = true
is_approved _ = false

abbrev pub proposal_or_denied : Option Action → Result Action
proposal_or_denied none = err (permission "INVALID_PROPOSAL")
proposal_or_denied (some a) = ok a

module _ {Json World Text : Type 0} ⦃text_eq : Eq Text⦄ (platform : Platform Json)
    (codec : Codec ActionRecord Text) (host : Host World (action_digest platform) codec)
    (mode : OperationMode) where
  abbrev pub Call : Type 0 → Type 0
  Call = Exec (State World Text)

  abbrev pub digest : Action → String
  digest = action_digest platform

  -- A step of the host, and a call of the store.
  pub ask : {A : Type 0} → (Env World Text → A × Env World Text) → Call A
  ask f s = let (a, env) = f s.env in (ok a, record s { env = env })

  pub ask_result : {A : Type 0} → (Env World Text → Result A × Env World Text) → Call A
  ask_result f s = let (r, env) = f s.env in (r, record s { env = env })

  pub stored : {A : Type 0} → Exec (Db Text) A → Call A
  stored f s = let (r, db) = f s.env.db in (r, record s { env = record s.env { db = db } })

  -- The backend's effect, which is logged whether it returns or raises.
  pub effect : Action → String → Call EffectReceipt
  effect a key s =
      let (r, env) = host.execute a key s.env in
      (r, record { env = env; effects = record { key = key; action = a } ∷ s.effects })

  -- `ActionStore.get`
  pub load : String → Call ActionRecord
  load id = stored (λ db. (get digest codec id db, db))

  -- `ActionStore.transition`, which reads the clock for `updated_at`.
  pub move :
      ActionRecord
      → ActionState
      → String
      → String
      → Option Approval
      → Option EffectReceipt
      → Call ActionRecord
  move before state actor reason approval result = do
    now ← ask host.clock
    stored (transition digest codec before state actor reason approval result now)

  -- `_identity`
  pub identity : String → Role → String → Call Principal
  identity subject role namespace = do
    principal ← ask_result (host.principal subject)
    now ← ask host.clock
    lift (accept_identity principal subject role namespace now)

  -- `_review`
  pub review : Action → String → Call Time
  review a subject = do
    principal ← identity subject responder a.namespace
    context ← ask_result (host.context a subject)
    guard (a.mode != mode) (permission "BACKEND_CONTEXT_MISMATCH")
    now ← ask host.clock
    verdict ← lift (
        evaluate platform (platform.write_action a) (record context { principal = some principal })
          now)
    guard (is_denial verdict.decision) (permission verdict.reason)
    lift (policy_deadline context a context.incident.report)

  -- `ActionRecord(...)` in `propose`, with its validators.
  abbrev pub new_record : Action → String → Time → ActionRecord
  new_record a subject now = record {
    action_id = digest a;
    proposal = a;
    proposer = subject;
    state = proposed;
    revision = 0;
    created_at = now;
    updated_at = now;
    approval = none;
    result = none;
  }

  pub propose : Json → String → Call ActionRecord
  propose value subject = do
    a ← lift (proposal_or_denied (read_proposal platform value))
    review a subject
    now ← ask host.clock
    stored (create digest codec (new_record a subject now))

  pub approve : String → String → Call ActionRecord
  approve id subject = do
    r ← load id
    identity subject approver r.proposal.namespace
    guard (subject == r.proposer || not (is_proposed r.state)) (permission "APPROVAL_DENIED")
    deadline ← review r.proposal r.proposer
    identity subject approver r.proposal.namespace
    now ← ask host.clock
    guard (ltb deadline now) (permission "POLICY_EXPIRED")
    move r approved subject "HUMAN_APPROVED"
        (some (record {
          subject = subject;
          action_digest = r.action_id;
          approved_at = now;
          expires_at = now + seconds 300;
        }))
        none

  -- `_approval_current`
  pub approval_current : Approval → Call (Unit {0})
  approval_current a = do
    now ← ask host.clock
    guard (not (approval_current_at a now)) (permission "APPROVAL_EXPIRED")

  -- `_dispatch_authority`, for a record with its approval.
  pub dispatch_authority : ActionRecord → Approval → String → Time → Call (Unit {0})
  dispatch_authority r a subject deadline = do
    let namespace = r.proposal.namespace
    first ← identity subject executor namespace
    second ← identity a.subject approver namespace
    third ← identity r.proposer responder namespace
    now ← ask host.clock
    guard
        (not (
          identity_valid (some first) executor namespace now
          && identity_valid (some second) approver namespace now
          && identity_valid (some third) responder namespace now))
        (permission "IDENTITY_DENIED")
    approval_current a
    later ← ask host.clock
    guard (ltb deadline later) (permission "POLICY_EXPIRED")

  abbrev pub denied_receipt : ActionRecord → EffectReceipt
  denied_receipt r = record {
    outcome = Outcome.failed;
    resource_uid = r.proposal.resource_uid;
    previous_version = r.proposal.expected_version;
    resulting_version = none;
  }

  -- The second `try` of `_dispatch`: the effect, and the check of its receipt.
  pub checked_effect : ActionRecord → Call EffectReceipt
  checked_effect r = do
    receipt ← effect r.proposal r.action_id
    guard
        (receipt.resource_uid != r.proposal.resource_uid
          || receipt.previous_version != r.proposal.expected_version)
        value_error
    pure receipt

  -- What `_dispatch` records once authority has been confirmed.
  pub settle : ActionRecord → String → Option EffectReceipt → Call ActionRecord
  settle r subject none = move r unknown subject "EXECUTOR_RESULT_UNKNOWN" none none
  settle r subject (some receipt) =
      move r (outcome_state receipt.outcome) subject "EXECUTOR_RESULT" none (some receipt)

  pub run_effect : ActionRecord → String → Call ActionRecord
  run_effect r subject = do
    receipt ←
        try_except (λ _. true) (checked_effect r >>= λ receipt. pure (some receipt))
          (λ _. pure none)
    settle r subject receipt

  -- The rest of `_dispatch`: a denied authority is recorded as a failure.
  pub settle_authority : ActionRecord → String → Bool → Call ActionRecord
  settle_authority r subject true = run_effect r subject
  settle_authority r subject false =
      move r ActionState.failed subject "DISPATCH_AUTHORITY_DENIED" none (some (denied_receipt r))

  -- `_dispatch`, for a record with its approval.
  pub dispatch : ActionRecord → Approval → String → Time → Call ActionRecord
  dispatch r a subject deadline = do
    granted ←
        try_except is_permission (dispatch_authority r a subject deadline >> pure true)
          (λ _. pure false)
    settle_authority r subject granted

  -- What `execute` checks of an approved record before it claims it.
  pub claim_checks : ActionRecord → Approval → Call Time
  claim_checks r a = do
    now ← ask host.clock
    guard (not (approval_current_at a now)) (permission "APPROVAL_REQUIRED")
    identity a.subject approver r.proposal.namespace
    deadline ← review r.proposal r.proposer
    approval_current a
    pure deadline

  -- The claim is committed before any effect.
  pub claim : ActionRecord → Approval → String → Call ActionRecord
  claim r a subject = do
    deadline ← claim_checks r a
    claimed ← move r executing subject "DISPATCH" none none
    dispatch claimed a subject deadline

  abbrev pub claim_approved : ActionRecord → Option Approval → String → Call ActionRecord
  claim_approved r none subject = raise (permission "APPROVAL_REQUIRED")
  claim_approved r (some a) subject =
      if is_approved r.state then claim r a subject else raise (permission "APPROVAL_REQUIRED")

  -- A record that was dispatched before is returned as it is.
  abbrev pub claim_unless_dispatched : ActionRecord → String → Call ActionRecord
  claim_unless_dispatched r subject =
      if was_dispatched r.state then pure r else claim_approved r r.approval subject

  pub execute : String → String → Call ActionRecord
  execute id subject = do
    r ← load id
    identity subject executor r.proposal.namespace
    guard (r.proposal.mode != mode) (permission "OPERATION_MODE_MISMATCH")
    claim_unless_dispatched r subject
