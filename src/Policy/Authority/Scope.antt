-- ===== src/Policy/Authority/Scope.antt =====
-- `identity_valid` and `scope_failure` of src/payops/policy/engine.py against their statements.
use pay_ops.Base.{
  ℕ, String, true, false, ◌≡◌, ◌↔◌, Option, none, some, List, ◌+◌, ◌≤◌, ◌<◌, refl, arith, seconds,
  Time, In, contains_iff, first_reason_iff, NoneHolds, not-eq-false, or-eq-false, ne-eq-false,
  ne2-eq-false, iff_trans, string_eq, age_within,
}
use pay_ops.Policy.Records.{
  Role, role_eq, responder, Principal, Action, ActionType, rollback_deployment, operation_mode_eq,
  resource_kind_eq, scale_deployment, restart_deployment, pause_synthetic_traffic,
}
use pay_ops.Policy.{
  PolicyContext, services, identity_valid, principal_valid, scope_failure, expected_kind,
  unapproved_revision, scope_checks,
}

-- `t` is not in the future, and at most `n` seconds old.
abbrev pub IsFresh : ℕ → Time → Time → Type 0
IsFresh n now t = (t ≤ now) × (now ≤ t + seconds n)

pub record HoldsRole (p : Principal) (role : Role) (namespace : String) (now : Time) : Type 0 where
  pub enabled : p.enabled ≡ true
  pub granted : In role p.roles
  pub admitted : In namespace p.namespaces
  pub unexpired : now < p.expires_at
  pub current : IsFresh 60 now p.verified_at

pub principal_valid_iff :
    (p : Principal) (role : Role) (namespace : String) (now : Time)
    → (principal_valid p role namespace now ≡ true) ↔ HoldsRole p role namespace now
unfolding principal_valid
principal_valid_iff p role namespace now =
    ground (arith, contains_iff role p.roles, contains_iff namespace p.namespaces)

abbrev pub IsIdentified : Option Principal → Role → String → Time → Type 0
IsIdentified none role namespace now = ⊥
IsIdentified (some p) role namespace now = HoldsRole p role namespace now

pub identity_valid_iff :
    (o : Option Principal) (role : Role) (namespace : String) (now : Time)
    → (identity_valid o role namespace now ≡ true) ↔ IsIdentified o role namespace now
unfolding identity_valid
identity_valid_iff none role namespace now = (λ h. absurd (cc), λ h. absurd (h))
identity_valid_iff (some p) role namespace now = principal_valid_iff p role namespace now

-- A rollback names a revision that the operator has approved.
abbrev pub IsApprovedRevision : ActionType → List String → Type 0
IsApprovedRevision (rollback_deployment r) approved = In r approved
IsApprovedRevision _ approved = Unit

pub record IsInScope (a : Action) (c : PolicyContext) (now : Time) : Type 0 where
  pub identified : IsIdentified c.principal responder a.namespace now
  pub sandboxed : a.namespace ≡ "payops-sandbox"
  pub listed : In a.service services
  pub same_incident : a.incident_id ≡ c.incident.incident_id
  pub same_incident_namespace : a.namespace ≡ c.incident.request.namespace
  pub same_namespace : a.namespace ≡ c.resource.namespace
  pub same_service : a.service ≡ c.resource.service
  pub same_mode : a.mode ≡ c.resource.mode
  pub synthetic : c.resource.synthetic ≡ true
  pub observed : IsFresh 30 now c.resource.observed_at
  pub same_uid : a.resource_uid ≡ c.resource.uid
  pub same_version : a.expected_version ≡ c.resource.version
  pub kind : c.resource.kind ≡ expected_kind a.action_type
  pub revision : IsApprovedRevision a.action_type c.resource.approved_revisions

unapproved_revision_iff :
    (t : ActionType) (approved : List String)
    → (unapproved_revision t approved ≡ false) ↔ IsApprovedRevision t approved
unapproved_revision_iff (rollback_deployment r) approved = ground (arith, contains_iff r approved)
unapproved_revision_iff restart_deployment approved = (λ _. tt, λ _. refl)
unapproved_revision_iff (scale_deployment n) approved = (λ _. tt, λ _. refl)
unapproved_revision_iff pause_synthetic_traffic approved = (λ _. tt, λ _. refl)

age_within_iff : (n : ℕ) (now t : Time) → (age_within n now t ≡ true) ↔ IsFresh n now t
age_within_iff n now t = ground arith

scope_checks-IsInScope :
    (a : Action) (c : PolicyContext) (now : Time)
    → NoneHolds (scope_checks a c now)
    → IsInScope a c now
scope_checks-IsInScope a c now (k0, (k1, (k2, (k3, (k4, (k5, (k6, (k7, (k8, _))))))))) =
    let (sandbox, service) = (or-eq-false _ _).0 k1 in
    let (incident, request) = (ne2-eq-false _ _ _ _).0 k2 in
    let (namespace, name) = (ne2-eq-false _ _ _ _).0 k3 in
    let (synthetic, fresh) = (or-eq-false _ _).0 k5 in
    let (uid, version) = (ne2-eq-false _ _ _ _).0 k6 in
    record {
      identified = (identity_valid_iff _ _ _ _).0 ((not-eq-false _).0 k0);
      sandboxed = (ne-eq-false _ _).0 sandbox;
      listed = (contains_iff a.service services).0 ((not-eq-false _).0 service);
      same_incident = incident;
      same_incident_namespace = request;
      same_namespace = namespace;
      same_service = name;
      same_mode = (ne-eq-false _ _).0 k4;
      synthetic = (not-eq-false _).0 synthetic;
      observed = (age_within_iff 30 now _).0 ((not-eq-false _).0 fresh);
      same_uid = uid;
      same_version = version;
      kind = (ne-eq-false _ _).0 k7;
      revision = (unapproved_revision_iff a.action_type _).0 k8;
    }

IsInScope-scope_checks :
    (a : Action) (c : PolicyContext) (now : Time)
    → IsInScope a c now
    → NoneHolds (scope_checks a c now)
IsInScope-scope_checks a c now s = (
  (not-eq-false _).1 ((identity_valid_iff _ _ _ _).1 s.identified),
  (
    (or-eq-false _ _).1 (
      (ne-eq-false _ _).1 s.sandboxed,
      (not-eq-false _).1 ((contains_iff a.service services).1 s.listed),
    ),
    (
      (ne2-eq-false _ _ _ _).1 (s.same_incident, s.same_incident_namespace),
      (
        (ne2-eq-false _ _ _ _).1 (s.same_namespace, s.same_service),
        (
          (ne-eq-false _ _).1 s.same_mode,
          (
            (or-eq-false _ _).1 (
              (not-eq-false _).1 s.synthetic,
              (not-eq-false _).1 ((age_within_iff 30 now c.resource.observed_at).1 s.observed),
            ),
            (
              (ne2-eq-false _ _ _ _).1 (s.same_uid, s.same_version),
              (
                (ne-eq-false _ _).1 s.kind,
                ((unapproved_revision_iff a.action_type _).1 s.revision, tt),
              ),
            ),
          ),
        ),
      ),
    ),
  ),
)

-- `scope_failure` finds nothing exactly when the proposal is in scope.
pub scope_failure_iff :
    (a : Action) (c : PolicyContext) (now : Time)
    → (scope_failure a c now ≡ none) ↔ IsInScope a c now
unfolding scope_failure
scope_failure_iff a c now =
    iff_trans (first_reason_iff (scope_checks a c now))
      (scope_checks-IsInScope a c now, IsInScope-scope_checks a c now)
