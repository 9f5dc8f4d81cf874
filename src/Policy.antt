-- ===== src/Policy.antt =====
-- src/payops/policy/engine.py: the deny-by-default evaluation of action proposals.
-- `ArtifactStore.verify` and `verify_payment_window` enter by the interface `EvidenceStore`.
pub mod Records
pub mod External
pub mod Authority
mod Tests
use pay_ops.Base.{
  ℕ, String, Bool, true, false, not, ◌&&◌, ◌||◌, Option, none, some, List, [], ◌∷◌, ◌==◌, ◌!=◌, ltb,
  string_eq, if◌then◌else◌, contains, first_reason, Time, age_within,
}
use pay_ops.Base.Result.{Result, ok, err, Error, key_error, os_error, is_value_error, ◌>>=◌}
use pay_ops.Contracts.{
  Source, source_eq, runbook, memory, trace, log, payment, ReportMode, report_mode_eq, EvidenceItem,
  IncidentReport, Incident, TerminalState, escalated,
}
use Records.{
  Role, role_eq, responder, OperationMode, operation_mode_eq, Principal, ResourceKind,
  resource_kind_eq, ResourceSnapshot, ActionType, scale_deployment, rollback_deployment,
  pause_synthetic_traffic, Action, action_valid, PolicyReview, deny, approval_required, RiskTier,
  r2, r3,
}
use External.{Platform}

-- `SERVICES`
abbrev pub services : List String
services = "payments-api" ∷ "processor-adapter" ∷ "risk-sim" ∷ "webhook-sim" ∷ []

-- What the engine asks of the artifact store: a verified citation, and the status of a verified
-- payment window.
pub data WindowStatus : Type 0 where
  complete incomplete : WindowStatus

pub record EvidenceStore : Type 0 where
  pub verify : EvidenceItem → Result (Unit {0})
  pub verify_payment_window : EvidenceItem → Result WindowStatus

pub record PolicyContext : Type 0 where
  pub principal : Option Principal
  pub incident : Incident
  pub resource : ResourceSnapshot
  pub store : EvidenceStore

-- `identity_valid`, after `principal is not None`
unfoldable pub principal_valid : Principal → Role → String → Time → Bool
principal_valid p role namespace now =
    p.enabled
    && contains role p.roles
    && contains namespace p.namespaces
    && ltb now p.expires_at
    && age_within 60 now p.verified_at

unfoldable pub identity_valid : Option Principal → Role → String → Time → Bool
unfolding principal_valid
identity_valid none role namespace now = false
identity_valid (some p) role namespace now = principal_valid p role namespace now

abbrev pub expected_kind : ActionType → ResourceKind
expected_kind pause_synthetic_traffic = ResourceKind.traffic
expected_kind _ = ResourceKind.deployment

-- `isinstance(proposal, RollbackAction) and proposal.revision_sha256 not in approved_revisions`
abbrev pub unapproved_revision : ActionType → List String → Bool
unapproved_revision (rollback_deployment r) approved = not (contains r approved)
unapproved_revision _ approved = false

-- The tests of `scope_failure`, in its order.
abbrev pub scope_checks : Action → PolicyContext → Time → List (Bool × String)
scope_checks a c now =
    (not (identity_valid c.principal responder a.namespace now), "IDENTITY_DENIED")
    ∷ (a.namespace != "payops-sandbox" || not (contains a.service services), "SCOPE_DENIED")
    ∷ (
      a.incident_id != c.incident.incident_id || a.namespace != c.incident.request.namespace,
      "INCIDENT_SCOPE_MISMATCH",
    )
    ∷ (
      a.namespace != c.resource.namespace || a.service != c.resource.service,
      "RESOURCE_SCOPE_MISMATCH",
    )
    ∷ (a.mode != c.resource.mode, "OPERATION_MODE_MISMATCH")
    ∷ (
      not c.resource.synthetic || not (age_within 30 now c.resource.observed_at),
      "RESOURCE_NOT_CURRENT",
    )
    ∷ (
      a.resource_uid != c.resource.uid || a.expected_version != c.resource.version,
      "STALE_PRECONDITION",
    )
    ∷ (c.resource.kind != expected_kind a.action_type, "RESOURCE_KIND_MISMATCH")
    ∷ (unapproved_revision a.action_type c.resource.approved_revisions, "REVISION_NOT_APPROVED")
    ∷ []

unfoldable pub scope_failure : Action → PolicyContext → Time → Option String
unfolding identity_valid
scope_failure a c now = first_reason (scope_checks a c now)

-- `trace.console-log.v1`, the query of log items that only repeat a trace
abbrev pub console_log_query : String
console_log_query = "trace.console-log.v1"

abbrev window_failure : WindowStatus → Option String
window_failure complete = none
window_failure incomplete = some "EVIDENCE_NOT_OPERATIONAL"

unfoldable pub operational_evidence : EvidenceItem → EvidenceStore → Result (Option String)
operational_evidence item store =
    if item.source == runbook || item.source == memory || item.source == trace
    then ok (some "EVIDENCE_NOT_OPERATIONAL")
    else if item.source == log && item.query == console_log_query
    then ok (some "EVIDENCE_NOT_OPERATIONAL")
    else if item.source == payment
    then (store.verify_payment_window item >>= λ status. ok (window_failure status))
    else (store.verify item >>= λ _. ok none)

-- The dictionary `{item.evidence_id: item for item in report.evidence}`: the last item wins.
unfoldable pub evidence_by_id : String → List EvidenceItem → Option EvidenceItem
evidence_by_id i [] = none
evidence_by_id i (item ∷ items) = elim (evidence_by_id i items) [
  | some later ↦ some later
  | none ↦ if item.evidence_id == i then some item else none
]

-- The body of the loop over the cited items.
unfoldable pub item_failure : Action → EvidenceStore → Time → EvidenceItem → Result (Option String)
unfolding operational_evidence
item_failure a store now item =
    if item.incident_id != a.incident_id
    then ok (some "EVIDENCE_SCOPE_MISMATCH")
    else if not (age_within 300 now item.observed_at)
    then ok (some "EVIDENCE_STALE")
    else if not (age_within 300 now item.collected_at)
    then ok (some "EVIDENCE_STALE")
    else operational_evidence item store

-- `if failure is not None: return failure`, and an exception ends the loop too.
abbrev pub unless_failed : Result (Option String) → Result (Option String) → Result (Option String)
unless_failed (ok none) rest = rest
unless_failed (ok (some reason)) rest = ok (some reason)
unless_failed (err e) rest = err e

-- One round of the loop over the citations: a missing key raises `KeyError`.
unfoldable pub cited_failure :
    Action
    → EvidenceStore
    → Time
    → Option EvidenceItem
    → Result (Option String)
    → Result (Option String)
unfolding item_failure
cited_failure a store now none rest = err key_error
cited_failure a store now (some item) rest = unless_failed (item_failure a store now item) rest

-- The loop: the first failure ends it.
unfoldable pub citation_failure :
    Action → EvidenceStore → Time → List EvidenceItem → List String → Result (Option String)
unfolding evidence_by_id cited_failure
citation_failure a store now items [] = ok none
citation_failure a store now items (i ∷ is) =
    cited_failure a store now (evidence_by_id i items) (citation_failure a store now items is)

-- `except (KeyError, ValueError, OSError)`
abbrev pub is_evidence_error : Error → Bool
is_evidence_error key_error = true
is_evidence_error os_error = true
is_evidence_error e = is_value_error e

abbrev pub catch_evidence_error : Result (Option String) → Result (Option String)
catch_evidence_error (ok failure) = ok failure
catch_evidence_error (err e) = if is_evidence_error e then ok (some "EVIDENCE_INVALID") else err e

abbrev pub is_escalated : TerminalState → Bool
is_escalated escalated = true
is_escalated _ = false

abbrev pub report_mode : OperationMode → ReportMode
report_mode OperationMode.local_kind = ReportMode.local_kind
report_mode OperationMode.cloud_gke = ReportMode.cloud_gke
report_mode OperationMode.fixture_replay = ReportMode.fixture_replay

-- `evidence_failure`, by the incident's report.
unfoldable pub report_failure :
    Action → PolicyContext → Time → Option IncidentReport → Result (Option String)
unfolding citation_failure
report_failure a c now none = ok (some "INCIDENT_NOT_ACTIONABLE")
report_failure a c now (some report) =
    if not (is_escalated report.terminal_state)
    then ok (some "INCIDENT_NOT_ACTIONABLE")
    else if report.mode != report_mode c.resource.mode
    then ok (some "EVIDENCE_MODE_MISMATCH")
    else catch_evidence_error (citation_failure a c.store now report.evidence a.evidence_ids)

unfoldable pub evidence_failure : Action → PolicyContext → Time → Result (Option String)
unfolding report_failure
evidence_failure a c now = report_failure a c now c.incident.report

-- `scope_failure(...) or evidence_failure(...)`
abbrev pub or_else : Option String → Result (Option String) → Result (Option String)
or_else (some reason) rest = ok (some reason)
or_else none rest = rest

unfoldable pub policy_failure : Action → PolicyContext → Time → Result (Option String)
unfolding scope_failure evidence_failure
policy_failure a c now = or_else (scope_failure a c now) (evidence_failure a c now)

abbrev pub risk : ActionType → RiskTier
risk (scale_deployment _) = r3
risk (rollback_deployment _) = r3
risk _ = r2

abbrev pub denial : String → PolicyReview
denial reason = record {
  decision = deny;
  reason = reason;
  risk_tier = none;
  proposal = none;
  action_digest = none;
}

module _ {Json : Type 0} (platform : Platform Json) where
  -- `ACTION.validate_python`
  unfoldable pub read_proposal : Json → Option Action
  read_proposal value = elim (platform.read_action value) [
    | none ↦ none
    | some a ↦ if action_valid a then some a else none
  ]

  unfoldable pub action_digest : Action → String
  action_digest a = platform.sha256_hex (platform.canonical_json a)

  abbrev pub approval : Action → PolicyReview
  approval a = record {
    decision = approval_required;
    reason = "REVIEW_REQUIRED";
    risk_tier = some (risk a.action_type);
    proposal = some a;
    action_digest = some (action_digest a);
  }

  abbrev pub review : Action → Result (Option String) → Result PolicyReview
  review a (ok none) = ok (approval a)
  review a (ok (some reason)) = ok (denial reason)
  review a (err e) = err e

  -- `evaluate`, by what `ACTION.validate_python` gave.
  abbrev pub evaluate_read : Option Action → PolicyContext → Time → Result PolicyReview
  evaluate_read none c now = ok (denial "INVALID_PROPOSAL")
  evaluate_read (some a) c now = review a (policy_failure a c now)

  unfoldable pub evaluate : Json → PolicyContext → Time → Result PolicyReview
  unfolding read_proposal action_digest policy_failure
  evaluate value c now = evaluate_read (read_proposal value) c now
