-- ===== src/Remediation/Deployment/Plans.antt =====
-- What a plan of src/payops/remediation/deployment.py is made for, and what it may change.
use pay_ops.Base.{
  String, Bool, true, false, not, ◌≡◌, refl, sym, ◌∙◌, subst, List, [], ◌∷◌, ◌!=◌, string_eq, In,
  contains_iff, not-eq-false, or-eq-false, ne-eq-false,
}
use pay_ops.Base.Result.{
  Result, ok, value_error, raise_if, raise_if-then, raise_if-eq-ok, >>=-eq-ok, ok_inj,
}
use pay_ops.Base.Json.{pos, Json, integer, text, object, Members, empty, lookup}
use pay_ops.Base.Dicts.{at_key, get_or, object_value}
use pay_ops.Policy.Records.{
  Action, ActionType, restart_deployment, scale_deployment, rollback_deployment,
  pause_synthetic_traffic, OperationMode, operation_mode_eq, action_valid,
}
use pay_ops.Policy.{services}
use pay_ops.Remediation.Deployment.{
  DeploymentPlan, Mapping, maps_to, is_pause, is_target, validate_target, deployment_spec,
  change_template, restart_template, rollback_template, desired, plan_deployment,
}
use pay_ops.Remediation.Deployment.Edits.{
  EditedAt, IsRolledBack, Changes, at_key-lookup, object_value-object, subscript, set-EditedAt,
  within-EditedAt, restart_template-EditedAt, rollback_template-EditedAt,
}

-- An action on a deployment that the operator's inventory names.
pub record IsInScope (a : Action) (inventory : Mapping) : Type 0 where
  pub bounds : action_valid a ≡ true
  pub mode : a.mode ≡ OperationMode.local_kind
  pub namespace : a.namespace ≡ "payops-sandbox"
  pub service : In a.service services
  pub resource : maps_to (inventory a.service) a.resource_uid ≡ true
  pub not_pause : is_pause a.action_type ≡ false

-- The object is the deployment of the action, at the version that was approved.
pub record IsCurrent (a : Action) (current before : Members) : Type 0 where
  pub metadata : Members
  pub labels : Members
  pub found : lookup "metadata" current ≡ object metadata
  pub identity : is_target a current metadata labels ≡ true
  pub spec : lookup "spec" current ≡ object before

validate_target-IsInScope :
    (a : Action) (inventory : Mapping) → validate_target a inventory ≡ ok tt → IsInScope a inventory
unfolding validate_target
validate_target-IsInScope a inventory h =
    let (bounds, h) = (raise_if-then (not (action_valid a)) value_error _).0 h in
    let denied = (raise_if-eq-ok _ _).0 h in
    let (denied, pause) = (or-eq-false _ _).0 denied in
    let (denied, resource) = (or-eq-false _ _).0 denied in
    let (denied, service) = (or-eq-false _ _).0 denied in
    let (mode, namespace) = (or-eq-false _ _).0 denied in
    record {
      bounds = (not-eq-false _).0 bounds;
      mode = (ne-eq-false a.mode OperationMode.local_kind).0 mode;
      namespace = (ne-eq-false a.namespace "payops-sandbox").0 namespace;
      service = (contains_iff a.service services).0 ((not-eq-false _).0 service);
      resource = (not-eq-false _).0 resource;
      not_pause = pause;
    }

deployment_spec-IsCurrent :
    (a : Action) (current before : Members)
    → deployment_spec a current ≡ ok before
    → IsCurrent a current before
unfolding deployment_spec
deployment_spec-IsCurrent a current before e =
    let (found, e1, e) = >>=-eq-ok (at_key "metadata" current) _ e in
    let (metadata, e2, e) = >>=-eq-ok (object_value found) _ e in
    let (labels, e3, e) = >>=-eq-ok (object_value (get_or "labels" (object empty) metadata)) _ e in
    let (_, target, e) = >>=-eq-ok (raise_if (not (is_target a current metadata labels)) _) _ e in
    let (spec, e4, e) = >>=-eq-ok (at_key "spec" current) _ e in
    record {
      metadata = metadata;
      labels = labels;
      found =
          sym (at_key-lookup "metadata" current found e1) ∙ object_value-object found metadata e2;
      identity = (not-eq-false _).0 ((raise_if-eq-ok _ _).0 target);
      spec = sym (at_key-lookup "spec" current spec e4) ∙ object_value-object spec before e;
    }

module _ (digest : Action → String) (is_image : String → String → Bool) where
  change_template-EditedAt :
      (change : Members → Result Members) (k : String) (ks : List String) (P : Json → Json → Type 0)
      (before after : Members)
      → ((t t' : Members) → change t ≡ ok t' → EditedAt k ks P t t')
      → change_template digest is_image change before ≡ ok after
      → EditedAt "template" (k ∷ ks) P before after
  unfolding change_template
  change_template-EditedAt change k ks P before after h e =
      let (found, e1, e) = >>=-eq-ok (at_key "template" before) _ e in
      let (template, e2, e) = >>=-eq-ok (object_value found) _ e in
      let (changed, e3, e) = >>=-eq-ok (change template) _ e in
      subst (EditedAt "template" (k ∷ ks) P before) (ok_inj e) (
        within-EditedAt "template" before k ks P template changed
          (subscript "template" before template found e1 e2) (h template changed e3))

  desired-Changes :
      (kind : ActionType) (key : String) (revisions : Mapping) (before after : Members)
      → is_pause kind ≡ false
      → desired digest is_image kind key revisions before ≡ ok after
      → Changes is_image revisions key kind before after
  unfolding desired
  desired-Changes (scale_deployment n) key revisions before after h e =
      subst (EditedAt "replicas" [] (λ _ v. v ≡ integer (pos n)) before) (ok_inj e)
        (set-EditedAt "replicas" before (integer (pos n)) (λ _ v. v ≡ integer (pos n)) refl)
  desired-Changes (rollback_deployment revision) key revisions before after h e =
      change_template-EditedAt (rollback_template digest is_image revision revisions) "spec"
        ("containers" ∷ []) (IsRolledBack is_image revisions revision) before after
        (rollback_template-EditedAt digest is_image revision revisions) e
  desired-Changes restart_deployment key revisions before after h e =
      change_template-EditedAt (restart_template digest is_image key) "metadata"
        ("annotations" ∷ "payops.dev/remediation" ∷ []) (λ _ v. v ≡ text key) before after
        (restart_template-EditedAt digest is_image key) e
  desired-Changes pause_synthetic_traffic key revisions before after h e = absurd (cc)

  -- A plan is made only for an action in the operator's scope, under its digest as the key, and for the
  -- deployment at the identity and version that were approved. Its desired spec is the current one but
  -- for the approved field: the replicas of a scaling, the remediation annotation of a restart, or the
  -- image of the only container, which an approved revision names, of a rollback.
  pub plan_deployment-Changes :
      (a : Action) (current : Members) (key : String) (inventory revisions : Mapping)
      (p : DeploymentPlan)
      → plan_deployment digest is_image a current key inventory revisions ≡ ok p
      → (p.action ≡ a)
        × (key ≡ digest a)
        × IsInScope a inventory
        × IsCurrent a current p.before
        × Changes is_image revisions key a.action_type p.before p.after
  unfolding plan_deployment
  plan_deployment-Changes a current key inventory revisions p e =
      let (_, target, e) = >>=-eq-ok (validate_target a inventory) _ e in
      let (_, same, e) = >>=-eq-ok (raise_if (key != digest a) _) _ e in
      let (before, e1, e) = >>=-eq-ok (deployment_spec a current) _ e in
      let (after, e2, e) =
        >>=-eq-ok (desired digest is_image a.action_type key revisions before) _ e in
      let scope = validate_target-IsInScope a inventory target in
      subst
        (λ (q : DeploymentPlan).
          (q.action ≡ a)
          × (key ≡ digest a)
          × IsInScope a inventory
          × IsCurrent a current q.before
          × Changes is_image revisions key a.action_type q.before q.after)
        (ok_inj e)
        (
          refl,
          (ne-eq-false key (digest a)).0 ((raise_if-eq-ok _ _).0 same),
          scope,
          deployment_spec-IsCurrent a current before e1,
          desired-Changes a.action_type key revisions before after scope.not_pause e2,
        )
