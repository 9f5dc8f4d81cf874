-- ===== src/Remediation/Deployment/Tests.antt =====
-- A restart of one deployment by src/payops/remediation/deployment.py and local_executor.py, on a cluster
-- whose answers never change and whose clock moves only while it is waited for.
use pay_ops.Base.{
  ℕ, ◌+◌, true, false, ◌≡◌, ◌≢◌, refl, none, some, [], ◌==◌, string_eq, if◌then◌else◌, arith,
  seconds,
}
use pay_ops.Base.Result.{ok}
use pay_ops.Base.Json.{text, object, Members, empty, member}
use pay_ops.Policy.Records.{action_valid, OperationMode-discrete}
use pay_ops.Policy.{action_digest}
use pay_ops.Remediation.Deployment.{DeploymentPlan, Mapping, plan_deployment}
use pay_ops.Remediation.Deployment.Edits.{Changes}
use pay_ops.Remediation.Deployment.Plans.{IsInScope, IsCurrent, plan_deployment-Changes}
use pay_ops.Remediation.Deployment.Readiness.{Python}
use pay_ops.Remediation.Deployment.Executor.{
  Command, get_namespace, get_deployment, patch_deployment, Session, Kubectl, Executor,
  execute_plan,
}
use pay_ops.Remediation.Deployment.Executor.Writes.{WritesOnce, execute_plan-WritesOnce}
use pay_ops.Remediation.Deployment.Executor.Deadline.{IsTimed, execute_plan-Answers}
use pay_ops.Remediation.Examples.{restart, plain_digest}

abbrev inventory : Mapping
inventory service = if service == "payments-api" then some "uid-1" else none

abbrev revisions : Mapping
revisions revision = none

abbrev spec : Members
spec = member "template" (object (member "metadata" (object empty) empty)) empty

abbrev spec_after : Members
spec_after =
    member "template"
      (object (
        member "metadata"
          (object (
            member "annotations" (object (member "payops.dev/remediation" (text "inc-1") empty))
              empty))
          empty))
      empty

abbrev metadata : Members
metadata = member "namespace" (text "payops-sandbox") (
    member "name" (text "payments-api") (
      member "uid" (text "uid-1") (
        member "resourceVersion" (text "7") (
          member "labels" (object (member "app.kubernetes.io/part-of" (text "payops") empty))
            empty))))

abbrev live : Members
live = member "kind" (text "Deployment") (
    member "apiVersion" (text "apps/v1")
      (member "metadata" (object metadata) (member "spec" (object spec) empty)))

abbrev plan : DeploymentPlan
plan = record { action = restart; before = spec; after = spec_after }

planned :
    plan_deployment plain_digest (λ r i. false) restart live "inc-1" inventory revisions ≡ ok plan
unfolding plan_deployment action_valid OperationMode-discrete action_digest
planned = refl

plan_deployment-Changes_example :
    (plan.action ≡ restart)
    × ("inc-1" ≡ plain_digest restart)
    × IsInScope restart inventory
    × IsCurrent restart live plan.before
    × Changes (λ r i. false) revisions "inc-1" restart.action_type plan.before plan.after
plan_deployment-Changes_example =
    plan_deployment-Changes plain_digest (λ r i. false) restart live "inc-1" inventory revisions
      plan planned

abbrev sandbox : Members
sandbox =
    member "metadata"
      (object (member "uid" (text "ns-1") (member "name" (text "payops-sandbox") empty))) empty

abbrev answer : Command → Members
answer get_namespace = sandbox
answer (get_deployment service) = live
answer (patch_deployment service ops) = live

abbrev still : Kubectl ℕ
still = record { ask = λ r c. (ok (answer r), c); clock = λ c. (c, c); wait = λ n c. c + n }

still-IsTimed : IsTimed still
still-IsTimed = record {
  clock_forward = λ c. omega arith;
  ask_forward = λ r c. omega arith;
  wait_forward = λ n c. omega arith;
}

abbrev python : Python
python = record {
  digest = plain_digest;
  is_image = λ r i. false;
  equal = λ a b. true;
  show_json = λ j. "8";
}

abbrev executor : Executor
executor = record {
  namespace_uid = "ns-1";
  inventory = inventory;
  revisions = λ service. revisions;
  postcheck = seconds 2;
}

abbrev begun : Session ℕ
begun = record { cluster = 0; sent = [] }

execute_plan-WritesOnce_example :
    WritesOnce still python executor
      (still.ask get_namespace begun.cluster).1
      restart
      "inc-1"
      begun
      (execute_plan still python executor 3 restart "inc-1" begun)
execute_plan-WritesOnce_example =
    execute_plan-WritesOnce still python executor 3 restart "inc-1" begun

execute_plan-Answers_example :
    (execute_plan still python executor 3 restart "inc-1" begun).0 ≢ ok none
execute_plan-Answers_example =
    execute_plan-Answers still python executor still-IsTimed 2 restart "inc-1" begun (omega arith)
