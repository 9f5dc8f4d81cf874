-- ===== src/Remediation/Deployment/Executor/Writes.antt =====
-- What `execute` of src/payops/remediation/local_executor.py writes to the cluster.
use pay_ops.Base.{
  ℕ, zero, suc, ◌+◌, ◌-◌, min, String, Bool, true, false, not, ◌||◌, ◌≡◌, refl, sym, ◌∙◌, ap, subst,
  Bool-cases, none, List, [], ◌∷◌, inl, inr, ◌⊎◌, is_some, contains, string_eq, leb, if◌then◌else◌,
  Time, seconds,
}
use pay_ops.Base.Result.{Result, ok, err, Error, permission}
use pay_ops.Base.Action.{Exec, ◌>>=◌, lift, guard, and_then}
use pay_ops.Base.Action.Triple.{
  IsPreorder, Within, Within-pure, Within-lift, Within-guard, Within-bind,
}
use pay_ops.Base.Json.{Members}
use pay_ops.Policy.Records.{Action}
use pay_ops.Policy.{services}
use pay_ops.Remediation.Deployment.{
  DeploymentPlan, PatchOp, patch, validate_target, plan_deployment,
}
use pay_ops.Remediation.Deployment.Readiness.{Python, rollout_ready, is_namespace}
use pay_ops.Remediation.Deployment.Executor.{
  Command, get_namespace, get_deployment, patch_deployment, Session, Kubectl, Executor, run_command,
  read_clock, wait_for, check_namespace, read_deployment, await_rollout, execute_plan,
}

-- The patches among the commands that were sent.
abbrev pub patches : List Command → List (String × List PatchOp)
patches [] = []
patches (get_namespace ∷ rs) = patches rs
patches (get_deployment service ∷ rs) = patches rs
patches (patch_deployment service ops ∷ rs) = (service, ops) ∷ patches rs

module _ {Cluster : Type 0} (kubectl : Kubectl Cluster) (python : Python) (x : Executor) where
  -- Nothing was written.
  abbrev pub IsQuiet : Session Cluster → Session Cluster → Type 0
  IsQuiet s s' = patches s'.sent ≡ patches s.sent

  IsQuiet-order : IsPreorder IsQuiet
  IsQuiet-order = record { same = λ s. refl; chain = λ a b c f g. g ∙ f }

  check_namespace-IsQuiet : Within IsQuiet (check_namespace kubectl python x)
  unfolding check_namespace run_command
  check_namespace-IsQuiet =
      Within-bind IsQuiet-order (run_command kubectl python x get_namespace) _
        (record { at = λ s. refl }) (λ current. Within-lift IsQuiet-order _)

  read_deployment-IsQuiet :
      (service : String) → Within IsQuiet (read_deployment kubectl python x service)
  unfolding read_deployment run_command
  read_deployment-IsQuiet service =
      Within-bind IsQuiet-order
        (guard (not (is_some (x.inventory service)) || not (contains service services))
          (permission "EXECUTOR_SERVICE_DENIED"))
        _ (Within-guard IsQuiet-order _ _) (λ _. record { at = λ s. refl })

  read_clock-IsQuiet : Within IsQuiet (read_clock kubectl python x)
  unfolding read_clock
  read_clock-IsQuiet = record { at = λ s. refl }

  wait_for-IsQuiet : (n : ℕ) → Within IsQuiet (wait_for kubectl python x n)
  unfolding wait_for
  wait_for-IsQuiet n = record { at = λ s. refl }

  if-IsQuiet :
      {A : Type 0} (b : Bool) (m k : Exec (Session Cluster) A)
      → Within IsQuiet m
      → Within IsQuiet k
      → Within IsQuiet (if b then m else k)
  if-IsQuiet true m k hm hk = hm
  if-IsQuiet false m k hm hk = hk

  await_rollout-IsQuiet :
      (n : ℕ) (p : DeploymentPlan) (deadline : Time) (current : Members)
      → Within IsQuiet (await_rollout kubectl python x n p deadline current)
  unfolding await_rollout
  await_rollout-IsQuiet zero p deadline current = Within-pure IsQuiet-order none
  await_rollout-IsQuiet (suc n) p deadline current =
      Within-bind IsQuiet-order (lift (rollout_ready python p current)) _
        (Within-lift IsQuiet-order _)
        (λ ready.
          if-IsQuiet ready _ _
            (Within-bind IsQuiet-order (read_clock kubectl python x) _ read_clock-IsQuiet
              (λ now. record { at = λ s. refl }))
            (Within-bind IsQuiet-order (read_clock kubectl python x) _ read_clock-IsQuiet (λ now.
              if-IsQuiet (leb deadline now) _ _ (record { at = λ s. refl })
                (Within-bind IsQuiet-order (read_clock kubectl python x) _ read_clock-IsQuiet
                  (λ later.
                    Within-bind IsQuiet-order
                      (wait_for kubectl python x (min (seconds 1) (deadline - later))) _
                      (wait_for-IsQuiet (min (seconds 1) (deadline - later)))
                      (λ _.
                        Within-bind IsQuiet-order (check_namespace kubectl python x) _
                          check_namespace-IsQuiet
                          (λ _.
                            Within-bind IsQuiet-order
                              (read_deployment kubectl python x p.action.service) _
                              (read_deployment-IsQuiet p.action.service)
                              (λ next. await_rollout-IsQuiet n p deadline next))))))))

  -- The patch of a plan for the action, made from what cluster `c` answers when it is asked for the
  -- action's deployment.
  pub record IsPlanned (c : Cluster) (a : Action) (key : String) (write : String × List PatchOp)
      : Type 0 where
    pub current : Members
    pub shown : (kubectl.ask (get_deployment a.service) c).0 ≡ ok current
    pub plan : DeploymentPlan
    pub planned :
        plan_deployment python.digest python.is_image a current key x.inventory
          (x.revisions a.service)
        ≡ ok plan
    pub written : write ≡ (a.service, patch plan)

  -- How a call ends: with an error and no write, or with one planned write.
  abbrev pub WritesOnce :
      {A : Type 0}
      → Cluster
      → Action
      → String
      → Session Cluster
      → Result A × Session Cluster
      → Type 0
  WritesOnce c a key s (r, s') =
      (((e : Error) × (r ≡ err e)) × IsQuiet s s')
      ⊎ ((write : String × List PatchOp) × IsPlanned c a key write
          × (patches s'.sent ≡ write ∷ patches s.sent))

  quiet_then :
      {A B : Type 0} (c : Cluster) (a : Action) (key : String) (m : Exec (Session Cluster) A)
      (f : A → Exec (Session Cluster) B) (s : Session Cluster)
      → Within IsQuiet m
      → ((v : A) (s' : Session Cluster) → m s ≡ (ok v, s') → WritesOnce c a key s' (f v s'))
      → WritesOnce c a key s ((m >>= f) s)
  unfolding ◌>>=◌
  quiet_then {A} c a key m f s q h = go (m s) (q.at s) (h)
    where
      moved :
          {B : Type 0} (s1 : Session Cluster) (y : Result B × Session Cluster)
          → IsQuiet s s1
          → WritesOnce c a key s1 y
          → WritesOnce c a key s y
      moved s1 (r, s2) e (inl (raised, quiet)) = inl (raised, quiet ∙ e)
      moved s1 (r, s2) e (inr (w, planned, written)) = inr (w, planned, rw (sym e) written)

      go :
          (y : Result A × Session Cluster)
          → IsQuiet s y.1
          → ((v : A) (s' : Session Cluster) → y ≡ (ok v, s') → WritesOnce c a key s' (f v s'))
          → WritesOnce c a key s (and_then y.0 f y.1)
      go (err e, s1) quiet k = inl ((e, refl), quiet)
      go (ok v, s1) quiet k = moved s1 (f v s1) quiet (k v s1 refl)

  -- The write itself, before calls that write nothing.
  written_then :
      {B : Type 0} (c : Cluster) (a : Action) (key : String) (ops : List PatchOp)
      (f : Members → Exec (Session Cluster) B) (s : Session Cluster)
      → IsPlanned c a key (a.service, ops)
      → ((v : Members) → Within IsQuiet (f v))
      → WritesOnce c a key s
          ((run_command kubectl python x (patch_deployment a.service ops) >>= f) s)
  unfolding ◌>>=◌ run_command
  written_then c a key ops f s planned q =
      go (kubectl.ask (patch_deployment a.service ops) s.cluster)
    where
      go :
          (y : Result Members × Cluster)
          → WritesOnce c a key s (
              and_then y.0 f
                (record { cluster = y.1; sent = patch_deployment a.service ops ∷ s.sent }))
      go (err e, world) = inr ((a.service, ops), planned, refl)
      go (ok v, world) = inr (
        (a.service, ops),
        planned,
        (q v).at (record { cluster = world; sent = patch_deployment a.service ops ∷ s.sent }),
      )

  check_namespace-cluster :
      (s s' : Session Cluster) (v : Unit {0})
      → check_namespace kubectl python x s ≡ (ok v, s')
      → s'.cluster ≡ (kubectl.ask get_namespace s.cluster).1
  unfolding check_namespace run_command ◌>>=◌
  check_namespace-cluster s s' v e = go (kubectl.ask get_namespace s.cluster) e
    where
      go :
          (y : Result Members × Cluster)
          → ◌≡◌ {A = Result (Unit {0}) × Session Cluster}
              (and_then y.0
                (λ current. lift (is_namespace x.namespace_uid current))
                (record { cluster = y.1; sent = get_namespace ∷ s.sent }))
              (ok v, s')
          → s'.cluster ≡ y.1
      go (err z, world) h = absurd (cc (ap (λ r. r.0) h))
      go (ok z, world) h = sym (ap (λ r. r.1.cluster) h)

  read_deployment-shown :
      (service : String) (s s' : Session Cluster) (current : Members)
      → read_deployment kubectl python x service s ≡ (ok current, s')
      → (kubectl.ask (get_deployment service) s.cluster).0 ≡ ok current
  unfolding read_deployment run_command ◌>>=◌
  read_deployment-shown service s s' current e =
      elim (Bool-cases (not (is_some (x.inventory service)) || not (contains service services))) [
        | inl denied ↦ absurd (cc (ap (λ r. r.0) (rw denied at e)))
        | inr allowed ↦ ap (λ r. r.0) (rw allowed at e)
      ]

  -- One execution writes to the cluster at most once: either it raises and has sent no patch, or it has
  -- sent exactly one, which is the patch of a plan for this action under this key, made from the
  -- deployment that the cluster shows once it has been asked for its namespace. So it returns a receipt
  -- only after one write, whatever the cluster answers, and however many rounds the wait for the
  -- rollout takes.
  pub execute_plan-WritesOnce :
      (rounds : ℕ) (a : Action) (key : String) (s : Session Cluster)
      → WritesOnce
          (kubectl.ask get_namespace s.cluster).1
          a
          key
          s
          (execute_plan kubectl python x rounds a key s)
  unfolding execute_plan ◌>>=◌
  execute_plan-WritesOnce rounds a key s =
      let c = (kubectl.ask get_namespace s.cluster).1 in
      quiet_then c a key (lift (validate_target a x.inventory)) _ s (Within-lift IsQuiet-order _)
        (λ _ s1 e1.
          quiet_then c a key (check_namespace kubectl python x) _ s1 check_namespace-IsQuiet
            (λ v s2 e2.
              quiet_then c a key (read_deployment kubectl python x a.service) _ s2
                (read_deployment-IsQuiet a.service)
                (λ current s3 e3.
                  let asked : s2.cluster ≡ c =
                    check_namespace-cluster s1 s2 v e2
                    ∙ ap (λ (z : Session Cluster). (kubectl.ask get_namespace z.cluster).1)
                        (sym (ap (λ r. r.1) e1)) in
                  quiet_then c a key
                    (lift (
                      plan_deployment python.digest python.is_image a current key x.inventory
                        (x.revisions a.service)))
                    _ s3 (Within-lift IsQuiet-order _)
                    (λ plan s4 e.
                      written_then c a key (patch plan) _ s4
                        (record {
                          current = current;
                          shown =
                              subst (λ z. (kubectl.ask (get_deployment a.service) z).0 ≡ ok current)
                                asked (read_deployment-shown a.service s2 s3 current e3);
                          plan = plan;
                          planned = ap (λ r. r.0) e;
                          written = refl;
                        })
                        (λ patched.
                          Within-bind IsQuiet-order (read_clock kubectl python x) _
                            read_clock-IsQuiet
                            (λ started.
                              await_rollout-IsQuiet rounds plan (started + x.postcheck)
                                patched))))))
