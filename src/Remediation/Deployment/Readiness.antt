-- ===== src/Remediation/Deployment/Readiness.antt =====
-- The readings of cluster objects in src/payops/remediation/deployment.py and local_executor.py after a
-- patch. Python's `==` on JSON values, `str` and its regular expressions are parameters.
use pay_ops.Base.{
  String, Bool, true, false, not, ◌&&◌, ◌||◌, some, List, [], ◌∷◌, all, if◌then◌else◌,
}
use pay_ops.Base.Result.{Result, ok, permission, raise_if, ◌>>=◌, ◌>>◌}
use pay_ops.Base.Json.{pos, Json, integer, object, Members, empty, lookup, is_text, ltz}
use pay_ops.Base.Dicts.{at_key, get_or, object_value}
use pay_ops.Policy.Records.{Action}
use pay_ops.Remediation.Records.{Outcome, EffectReceipt}
use pay_ops.Remediation.Deployment.{DeploymentPlan, is_null}

pub record Python : Type 0 where
  pub digest : Action → String
  pub is_image : String → String → Bool
  pub equal : Json → Json → Bool
  pub show_json : Json → String

abbrev pub is_int : Json → Bool
is_int (integer _) = true
is_int _ = false

-- `replicas > 0`
abbrev pub is_positive : Json → Bool
is_positive (integer n) = ltz (pos 0) n
is_positive _ = false

abbrev pub status_fields : List String
status_fields = "replicas" ∷ "updatedReplicas" ∷ "readyReplicas" ∷ "availableReplicas" ∷ []

-- The test of `rollout_ready` on the status, the desired replicas and the generation.
abbrev pub is_rolled_out : (Json → Json → Bool) → Members → Json → Json → Bool
is_rolled_out equal status replicas generation =
    is_int replicas
    && is_positive replicas
    && is_int generation
    && equal (lookup "observedGeneration" status) generation
    && all (λ f. is_int (lookup f status) && equal (lookup f status) replicas) status_fields
    && equal (get_or "unavailableReplicas" (integer (pos 0)) status) (integer (pos 0))

-- `rollout_ready`
unfoldable pub rollout_ready : Python → DeploymentPlan → Members → Result Bool
rollout_ready python p current = do
  found ← at_key "metadata" current
  metadata ← object_value found
  raise_if
      (not (is_text p.action.resource_uid (lookup "uid" metadata))
        || not (python.equal (lookup "spec" current) (object p.after)))
      (permission "EXECUTOR_POSTCHECK_DRIFT")
  raise_if (not (is_null (lookup "deletionTimestamp" metadata)))
      (permission "EXECUTOR_POSTCHECK_DELETING")
  status ← object_value (get_or "status" (object empty) current)
  ok (
      is_rolled_out python.equal status (get_or "replicas" (integer (pos 1)) p.after)
        (lookup "generation" metadata))

-- The checks of `_namespace`.
unfoldable pub is_namespace : String → Members → Result (Unit {0})
is_namespace uid current = do
  found ← at_key "metadata" current
  metadata ← object_value found
  raise_if
      (not (is_text uid (lookup "uid" metadata))
        || not (is_text "payops-sandbox" (lookup "name" metadata))
        || not (is_null (lookup "deletionTimestamp" metadata)))
      (permission "EXECUTOR_NAMESPACE_CHANGED")

-- `_receipt`
unfoldable pub effect_receipt : Python → Action → Members → Bool → Result EffectReceipt
effect_receipt python a current ready = do
  found ← at_key "metadata" current
  metadata ← object_value found
  version ← at_key "resourceVersion" metadata
  ok (record {
    outcome = if ready then Outcome.succeeded else Outcome.failed;
    resource_uid = a.resource_uid;
    previous_version = a.expected_version;
    resulting_version = some (python.show_json version);
  })
