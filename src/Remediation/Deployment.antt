-- ===== src/Remediation/Deployment.antt =====
-- src/payops/remediation/deployment.py: the plan of one change of a deployment. Objects of the cluster are
-- JSON dictionaries. The digest of an action is that of the policy engine; the regular expression of
-- operator images is a parameter.
pub mod Edits
pub mod Plans
pub mod Readiness
pub mod Executor
mod Tests
use pay_ops.Base.{
  String, Bool, true, false, not, ◌&&◌, ◌||◌, Option, none, some, List, [], ◌∷◌, ◌==◌, ◌!=◌,
  string_eq, contains, if◌then◌else◌,
}
use pay_ops.Base.Result.{Result, ok, err, Error, permission, value_error, raise_if, ◌>>=◌, ◌>>◌}
use pay_ops.Base.Json.{
  ℤ, pos, Json, null, integer, text, array, object, Items, nil, item, Members, empty, member,
  lookup, is_text,
}
use pay_ops.Base.Dicts.{at_key, get_or, set_member, object_value, object_list}
use pay_ops.Policy.Records.{
  Action, ActionType, restart_deployment, scale_deployment, rollback_deployment,
  pause_synthetic_traffic, OperationMode, operation_mode_eq, action_valid,
}
use pay_ops.Policy.{services}

pub record DeploymentPlan : Type 0 where
  pub action : Action
  pub before : Members
  pub after : Members

-- One operation of a JSON patch.
pub data PatchOp : Type 0 where
  test replace : String → Json → PatchOp

-- `DeploymentPlan.patch`
abbrev pub patch : DeploymentPlan → List PatchOp
patch p =
    test "/metadata/uid" (text p.action.resource_uid)
    ∷ test "/metadata/resourceVersion" (text p.action.expected_version)
    ∷ test "/spec" (object p.before)
    ∷ replace "/spec" (object p.after)
    ∷ []

-- A mapping of the operator: its value at a key, if any.
abbrev pub Mapping : Type 0
Mapping = String → Option String

abbrev pub maps_to : Option String → String → Bool
maps_to (some v) value = v == value
maps_to none value = false

abbrev pub is_pause : ActionType → Bool
is_pause pause_synthetic_traffic = true
is_pause _ = false

abbrev pub is_null : Json → Bool
is_null null = true
is_null _ = false

-- `validate_target`
unfoldable pub validate_target : Action → Mapping → Result (Unit {0})
validate_target a inventory = do
  raise_if (not (action_valid a)) value_error
  raise_if
      (a.mode != OperationMode.local_kind
        || a.namespace != "payops-sandbox"
        || not (contains a.service services)
        || not (maps_to (inventory a.service) a.resource_uid)
        || is_pause a.action_type)
      (permission "EXECUTOR_TARGET_DENIED")

-- The identity that `deployment_spec` asks of an object with this metadata and these labels.
abbrev pub is_target : Action → Members → Members → Members → Bool
is_target a current metadata labels =
    is_text "Deployment" (lookup "kind" current)
    && is_text "apps/v1" (lookup "apiVersion" current)
    && is_text a.namespace (lookup "namespace" metadata)
    && is_text a.service (lookup "name" metadata)
    && is_text a.resource_uid (lookup "uid" metadata)
    && is_text a.expected_version (lookup "resourceVersion" metadata)
    && is_text "payops" (lookup "app.kubernetes.io/part-of" labels)
    && is_null (lookup "deletionTimestamp" metadata)

-- `deployment_spec`
unfoldable pub deployment_spec : Action → Members → Result Members
deployment_spec a current = do
  found ← at_key "metadata" current
  metadata ← object_value found
  labels ← object_value (get_or "labels" (object empty) metadata)
  raise_if (not (is_target a current metadata labels)) (permission "EXECUTOR_PRECONDITION_FAILED")
  spec ← at_key "spec" current
  object_value spec

-- `revisions.get(revision, "")`
abbrev pub image_of : Option String → String
image_of (some image) = image
image_of none = ""

module _ (digest : Action → String) (is_image : String → String → Bool) where
  -- `rollback_image`: `is_image revision image` is the match of the operator's pattern.
  unfoldable pub rollback_image : String → Mapping → Result String
  rollback_image revision revisions = do
    raise_if (not (is_image revision (image_of (revisions revision))))
        (permission "EXECUTOR_REVISION_DENIED")
    ok (image_of (revisions revision))

  -- The one container of a rollback, with its new image.
  abbrev pub with_image : List Members → Result String → Result Json
  with_image (container ∷ []) image = do
    raise_if (not (is_text "sandbox" (lookup "name" container)))
        (permission "EXECUTOR_CONTAINER_DENIED")
    name ← image
    ok (array (item (object (set_member "image" (text name) container)) nil))
  with_image containers image = err (permission "EXECUTOR_CONTAINER_DENIED")

  unfoldable pub rollback_template : String → Mapping → Members → Result Members
  unfolding rollback_image
  rollback_template revision revisions template = do
    found ← at_key "spec" template
    spec ← object_value found
    listed ← at_key "containers" spec
    containers ← object_list listed
    changed ← with_image containers (rollback_image revision revisions)
    ok (set_member "spec" (object (set_member "containers" changed spec)) template)

  unfoldable pub restart_template : String → Members → Result Members
  restart_template key template = do
    found ← at_key "metadata" template
    metadata ← object_value found
    annotations ← object_value (get_or "annotations" (object empty) metadata)
    ok (
        set_member "metadata"
          (object (
            set_member "annotations"
              (object (set_member "payops.dev/remediation" (text key) annotations)) metadata))
          template)

  -- The change of the template in `plan_deployment`.
  unfoldable pub change_template : (Members → Result Members) → Members → Result Members
  change_template change spec = do
    found ← at_key "template" spec
    template ← object_value found
    changed ← change template
    ok (set_member "template" (object changed) spec)

  -- The desired spec of `plan_deployment`.
  unfoldable pub desired : ActionType → String → Mapping → Members → Result Members
  unfolding change_template rollback_template restart_template
  desired (scale_deployment n) key revisions spec =
      ok (set_member "replicas" (integer (pos n)) spec)
  desired (rollback_deployment revision) key revisions spec =
      change_template (rollback_template revision revisions) spec
  desired restart_deployment key revisions spec = change_template (restart_template key) spec
  desired pause_synthetic_traffic key revisions spec = change_template (restart_template key) spec

  -- `plan_deployment`
  unfoldable pub plan_deployment :
      Action → Members → String → Mapping → Mapping → Result DeploymentPlan
  unfolding validate_target deployment_spec desired
  plan_deployment a current key inventory revisions = do
    validate_target a inventory
    raise_if (key != digest a) (permission "EXECUTOR_DIGEST_MISMATCH")
    before ← deployment_spec a current
    after ← desired a.action_type key revisions before
    ok (record { action = a; before = before; after = after })
