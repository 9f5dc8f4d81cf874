-- ===== src/Remediation/Deployment/Executor.antt =====
-- src/payops/remediation/local_executor.py: one conditional write to the cluster, and the bounded wait for
-- its rollout. The bounded `kubectl` command with its JSON reader, the monotonic clock and the wait are
-- parameters; `sent` is the record of the commands that were run. Clock readings are microseconds.
pub mod Writes
pub mod Deadline
use pay_ops.Base.{
  ℕ, zero, suc, ◌+◌, ◌-◌, min, String, Bool, true, false, not, ◌&&◌, ◌||◌, Option, none, some, List,
  [], ◌∷◌, ◌==◌, ◌!=◌, string_eq, contains, is_some, leb, all, if◌then◌else◌, Time, seconds,
}
use pay_ops.Base.Result.{Result, ok, err, Error, permission, raise_if}
use pay_ops.Base.Action.{Exec, ◌>>=◌, ◌>>◌, pure, raise, lift, guard}
use pay_ops.Base.Json.{ℤ, pos, Json, integer, text, object, Members, empty, lookup, is_text, ltz}
use pay_ops.Base.Dicts.{at_key, get_or, object_value}
use pay_ops.Policy.Records.{Action}
use pay_ops.Policy.{services}
use pay_ops.Remediation.Records.{Outcome, EffectReceipt}
use pay_ops.Remediation.Deployment.{
  DeploymentPlan, PatchOp, patch, Mapping, is_null, validate_target, plan_deployment,
}
use pay_ops.Remediation.Deployment.Readiness.{Python, rollout_ready, is_namespace, effect_receipt}

pub data Command : Type 0 where
  get_namespace : Command
  get_deployment : String → Command
  patch_deployment : String → List PatchOp → Command

pub record Session (Cluster : Type 0) : Type 0 where
  pub cluster : Cluster
  pub sent : List Command

pub record Kubectl (Cluster : Type 0) : Type 0 where
  pub ask : Command → Cluster → Result Members × Cluster
  pub clock : Cluster → Time × Cluster
  pub wait : ℕ → Cluster → Cluster

pub record Executor : Type 0 where
  pub namespace_uid : String
  pub inventory : Mapping
  pub revisions : String → Mapping
  pub postcheck : ℕ

module _ {Cluster : Type 0} (kubectl : Kubectl Cluster) (python : Python) (x : Executor) where
  -- `_json`
  unfoldable pub run_command : Command → Exec (Session Cluster) Members
  run_command r s =
      let (answer, cluster) = kubectl.ask r s.cluster in
      (answer, record { cluster = cluster; sent = r ∷ s.sent })

  unfoldable pub read_clock : Exec (Session Cluster) Time
  read_clock s =
      let (now, cluster) = kubectl.clock s.cluster in (ok now, record s { cluster = cluster })

  unfoldable pub wait_for : ℕ → Exec (Session Cluster) (Unit {0})
  wait_for n s = (ok tt, record s { cluster = kubectl.wait n s.cluster })

  -- `_namespace`
  unfoldable pub check_namespace : Exec (Session Cluster) (Unit {0})
  check_namespace = do
    current ← run_command get_namespace
    lift (is_namespace x.namespace_uid current)

  -- `_read`
  unfoldable pub read_deployment : String → Exec (Session Cluster) Members
  read_deployment service = do
    guard (not (is_some (x.inventory service)) || not (contains service services))
        (permission "EXECUTOR_SERVICE_DENIED")
    run_command (get_deployment service)

  -- The return of `_receipt`.
  abbrev pub receive : Action → Members → Bool → Exec (Session Cluster) (Option EffectReceipt)
  receive a current ready s =
      (elim (effect_receipt python a current ready) [ ok r ↦ ok (some r) | err e ↦ err e ], s)

  -- The loop of `execute`, for at most as many rounds as the first argument says; `none` when they are
  -- used up.
  unfoldable pub await_rollout :
      ℕ → DeploymentPlan → Time → Members → Exec (Session Cluster) (Option EffectReceipt)
  unfolding effect_receipt
  await_rollout zero p deadline current = pure none
  await_rollout (suc n) p deadline current =
      let again = await_rollout n p deadline in
      lift (rollout_ready python p current) >>= λ ready.
      if ready
      then (read_clock >>= λ now. receive p.action current (leb now deadline))
      else (read_clock >>= λ now.
          if leb deadline now
          then receive p.action current false
          else (read_clock >>= λ later. wait_for (min (seconds 1) (deadline - later)) >>= λ _.
              check_namespace >>= λ _. read_deployment p.action.service >>= again))

  -- `execute`
  unfoldable pub execute_plan : ℕ → Action → String → Exec (Session Cluster) (Option EffectReceipt)
  unfolding await_rollout
  execute_plan rounds a key = do
    lift (validate_target a x.inventory)
    check_namespace
    current ← read_deployment a.service
    plan ← lift (
        plan_deployment python.digest python.is_image a current key x.inventory
          (x.revisions a.service))
    patched ← run_command (patch_deployment a.service (patch plan))
    started ← read_clock
    await_rollout rounds plan (started + x.postcheck) patched
