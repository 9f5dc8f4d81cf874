-- ===== src/Policy/Authority.antt =====
-- What an `APPROVAL_REQUIRED` review of src/payops/policy/engine.py means, stated without the
-- engine's tests: who may propose, on which resource, and on which evidence.
mod Scope
mod Evidence
pub use Scope.{
  IsFresh, HoldsRole, IsIdentified, identity_valid_iff, IsInScope, scope_failure_iff,
  IsApprovedRevision,
}
pub use Evidence.{
  IsOperational, Supports, CitesSupport, IsSupported, IsActionable, HasActionableReport,
  item_failure_iff, citation_failure_iff, evidence_failure_iff,
}
use pay_ops.Base.{String, ◌≡◌, ◌≢◌, ◌↔◌, refl, Option, none, some, Time, arith}
use pay_ops.Base.Result.{Result, ok, err}
use pay_ops.Policy.Records.{Action, PolicyReview, deny, approval_required}
use pay_ops.Policy.External.{Platform}
use pay_ops.Policy.{
  PolicyContext, policy_failure, scope_failure, evidence_failure, read_proposal, approval, denial,
  evaluate, or_else, review, evaluate_read,
}

-- Everything that the engine asks of a proposal.
pub record IsAuthorized (a : Action) (c : PolicyContext) (now : Time) : Type 0 where
  pub scope : IsInScope a c now
  pub evidence : HasActionableReport a c now c.incident.report

or_else-eq-none :
    (o : Option String) (rest : Result (Option String))
    → (or_else o rest ≡ ok none) ↔ ((o ≡ none) × (rest ≡ ok none))
or_else-eq-none none rest = (λ h. (refl, h), λ h. h.1)
or_else-eq-none (some reason) rest = (λ h. absurd (cc), λ h. absurd (cc))

pub policy_failure_iff :
    (a : Action) (c : PolicyContext) (now : Time)
    → (policy_failure a c now ≡ ok none) ↔ IsAuthorized a c now
unfolding policy_failure
policy_failure_iff a c now =
    let both = or_else-eq-none (scope_failure a c now) (evidence_failure a c now) in
    let scope = scope_failure_iff a c now in
    let evidence = evidence_failure_iff a c now in
    (
      λ h. record { scope = scope.0 (both.0 h).0; evidence = evidence.0 (both.0 h).1 },
      λ s. both.1 (scope.1 s.scope, evidence.1 s.evidence),
    )

denied :
    (reason : String) (r : PolicyReview)
    → ◌≡◌ {A = Result PolicyReview} (ok (denial reason)) (ok r)
    → r.decision ≡ approval_required
    → ⊥
denied reason r e d = cc

-- What an approving review says of the proposal that was read.
abbrev pub Approves :
    {Json : Type 0} → Platform Json → Option Action → PolicyContext → Time → PolicyReview → Type 0
Approves platform none c now r = ⊥
Approves platform (some a) c now r = IsAuthorized a c now × (r ≡ approval platform a)

module _ {Json : Type 0} (platform : Platform Json) where
  review-approval_iff :
      (a : Action) (failure : Result (Option String)) (r : PolicyReview)
      → ((review platform a failure ≡ ok r) × (r.decision ≡ approval_required))
        ↔ ((failure ≡ ok none) × (r ≡ approval platform a))
  review-approval_iff a (ok none) r = (λ (e, _). (refl, cc), λ (_, e). (cc, cc))
  review-approval_iff a (ok (some reason)) r =
      (λ (e, d). absurd (denied reason r e d), λ (f, _). absurd (cc))
  review-approval_iff a (err x) r = (λ (e, _). absurd (cc), λ (f, _). absurd (cc))

  -- A review permits approval exactly when the value reads as a valid action that is authorized;
  -- it then carries that action, its digest and its risk tier.
  pub evaluate-approval_iff :
      (value : Json) (c : PolicyContext) (now : Time) (r : PolicyReview)
      → ((evaluate platform value c now ≡ ok r) × (r.decision ≡ approval_required))
        ↔ Approves platform (read_proposal platform value) c now r
  unfolding evaluate
  evaluate-approval_iff value c now r = go (read_proposal platform value)
    where
      go :
          (o : Option Action)
          → ((evaluate_read platform o c now ≡ ok r) × (r.decision ≡ approval_required))
            ↔ Approves platform o c now r
      go none = (λ (e, d). absurd (denied "INVALID_PROPOSAL" r e d), λ h. absurd h)
      go (some a) =
          let one = review-approval_iff a (policy_failure a c now) r in
          let two = policy_failure_iff a c now in
          (λ h. (two.0 (one.0 h).0, (one.0 h).1), λ (s, e). one.1 (two.1 s, e))

  -- Every other review denies, and exposes no action, digest or risk tier.
  pub evaluate-denial :
      (value : Json) (c : PolicyContext) (now : Time) (r : PolicyReview)
      → evaluate platform value c now ≡ ok r
      → r.decision ≡ deny
      → (r.proposal ≡ none) × (r.action_digest ≡ none) × (r.risk_tier ≡ none)
  unfolding evaluate
  evaluate-denial value c now r = go (read_proposal platform value)
    where
      ofdenial :
          (reason : String)
          → ◌≡◌ {A = Result PolicyReview} (ok (denial reason)) (ok r)
          → (r.proposal ≡ none) × (r.action_digest ≡ none) × (r.risk_tier ≡ none)
      ofdenial reason e = (cc, cc, cc)

      reviewed :
          (a : Action) (failure : Result (Option String))
          → review platform a failure ≡ ok r
          → r.decision ≡ deny
          → (r.proposal ≡ none) × (r.action_digest ≡ none) × (r.risk_tier ≡ none)
      reviewed a (ok none) e d = absurd (cc)
      reviewed a (ok (some reason)) e d = ofdenial reason e
      reviewed a (err x) e d = absurd (cc)

      go :
          (o : Option Action)
          → evaluate_read platform o c now ≡ ok r
          → r.decision ≡ deny
          → (r.proposal ≡ none) × (r.action_digest ≡ none) × (r.risk_tier ≡ none)
      go none e d = ofdenial "INVALID_PROPOSAL" e
      go (some a) e d = reviewed a (policy_failure a c now) e d
