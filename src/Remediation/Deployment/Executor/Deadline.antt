-- ===== src/Remediation/Deployment/Executor/Deadline.antt =====
-- The wait for a rollout in src/payops/remediation/local_executor.py ends at its deadline.
use pay_ops.Base.{
  ℕ, zero, suc, ◌+◌, ◌-◌, ◌*◌, ◌≤◌, min, String, Bool, true, false, not, ◌||◌, ◌≡◌, ◌≢◌, refl,
  Option, none, some, is_some, contains, string_eq, leb, if◌then◌else◌, Time, seconds, arith,
}
use pay_ops.Base.Result.{Result, ok, err, permission}
use pay_ops.Base.Action.{Exec, ◌>>=◌, lift, guard, and_then}
use pay_ops.Base.Action.Triple.{IsPreorder, Within, Within-lift, Within-guard, Within-bind}
use pay_ops.Base.Json.{Members}
use pay_ops.Policy.Records.{Action}
use pay_ops.Policy.{services}
use pay_ops.Remediation.Records.{EffectReceipt}
use pay_ops.Remediation.Deployment.{DeploymentPlan, patch, validate_target, plan_deployment}
use pay_ops.Remediation.Deployment.Readiness.{Python, rollout_ready, effect_receipt}
use pay_ops.Remediation.Deployment.Executor.{
  Command, get_namespace, get_deployment, patch_deployment, Session, Kubectl, Executor, run_command,
  read_clock, wait_for, check_namespace, read_deployment, receive, await_rollout, execute_plan,
}

module _ {Cluster : Type 0} (kubectl : Kubectl Cluster) where
  abbrev pub time_of : Cluster → Time
  time_of c = (kubectl.clock c).0

  -- A monotonic clock, which a wait of `n` moves on by `n` at least.
  pub record IsTimed : Type 0 where
    pub clock_forward : (c : Cluster) → time_of c ≤ time_of (kubectl.clock c).1
    pub ask_forward : (r : Command) (c : Cluster) → time_of c ≤ time_of (kubectl.ask r c).1
    pub wait_forward : (n : ℕ) (c : Cluster) → time_of c + n ≤ time_of (kubectl.wait n c)

module _ {Cluster : Type 0} (kubectl : Kubectl Cluster) (python : Python) (x : Executor)
    (timed : IsTimed kubectl) where
  IsLater : Session Cluster → Session Cluster → Type 0
  IsLater s s' = time_of kubectl s.cluster ≤ time_of kubectl s'.cluster

  IsLater-order : IsPreorder IsLater
  unfolding IsLater
  IsLater-order = record { same = λ s. omega arith; chain = λ a b c f g. omega (arith, f, g) }

  run_command-IsLater : (r : Command) → Within IsLater (run_command kubectl python x r)
  unfolding run_command IsLater
  run_command-IsLater r = record { at = λ s. timed.ask_forward r s.cluster }

  check_namespace-IsLater : Within IsLater (check_namespace kubectl python x)
  unfolding check_namespace
  check_namespace-IsLater =
      Within-bind IsLater-order (run_command kubectl python x get_namespace) _
        (run_command-IsLater get_namespace) (λ current. Within-lift IsLater-order _)

  read_deployment-IsLater :
      (service : String) → Within IsLater (read_deployment kubectl python x service)
  unfolding read_deployment
  read_deployment-IsLater service =
      Within-bind IsLater-order
        (guard (not (is_some (x.inventory service)) || not (contains service services))
          (permission "EXECUTOR_SERVICE_DENIED"))
        _ (Within-guard IsLater-order _ _) (λ _. run_command-IsLater (get_deployment service))

  -- The rounds did not run out.
  abbrev pub Answers : Result (Option EffectReceipt) × Session Cluster → Type 0
  Answers y = y.0 ≢ ok none

  later_then :
      {A : Type 0} (m : Exec (Session Cluster) A)
      (f : A → Exec (Session Cluster) (Option EffectReceipt)) (s : Session Cluster)
      → Within IsLater m
      → ((v : A) (s' : Session Cluster)
          → time_of kubectl s.cluster ≤ time_of kubectl s'.cluster
          → Answers (f v s'))
      → Answers ((m >>= f) s)
  unfolding ◌>>=◌ IsLater
  later_then {A} m f s q h = go (m s) (q.at s)
    where
      go : (y : Result A × Session Cluster) → IsLater s y.1 → Answers (and_then y.0 f y.1)
      go (err e, s') l = λ k. cc
      go (ok v, s') l = h v s' l

  clock_then :
      (f : Time → Exec (Session Cluster) (Option EffectReceipt)) (s : Session Cluster)
      → ((s' : Session Cluster)
          → time_of kubectl s.cluster ≤ time_of kubectl s'.cluster
          → Answers (f (time_of kubectl s.cluster) s'))
      → Answers ((read_clock kubectl python x >>= f) s)
  unfolding ◌>>=◌ read_clock
  clock_then f s h =
      h (record s { cluster = (kubectl.clock s.cluster).1 }) (timed.clock_forward s.cluster)

  wait_then :
      (n : ℕ) (f : Unit {0} → Exec (Session Cluster) (Option EffectReceipt)) (s : Session Cluster)
      → ((s' : Session Cluster)
          → time_of kubectl s.cluster + n ≤ time_of kubectl s'.cluster
          → Answers (f tt s'))
      → Answers ((wait_for kubectl python x n >>= f) s)
  unfolding ◌>>=◌ wait_for
  wait_then n f s h =
      h (record s { cluster = kubectl.wait n s.cluster }) (timed.wait_forward n s.cluster)

  if-Answers :
      (b : Bool) (m k : Exec (Session Cluster) (Option EffectReceipt)) (s : Session Cluster)
      → Answers (m s)
      → (b ≡ false → Answers (k s))
      → Answers ((if b then m else k) s)
  if-Answers true m k s hm hk = hm
  if-Answers false m k s hm hk = hk refl

  receive-Answers :
      (a : Action) (current : Members) (ready : Bool) (s : Session Cluster)
      → Answers (receive kubectl python x a current ready s)
  receive-Answers a current ready s = go (effect_receipt python a current ready)
    where
      go : (r : Result EffectReceipt) → elim r [ ok r ↦ ok (some r) | err e ↦ err e ] ≢ ok none
      go (ok r) k = cc
      go (err e) k = cc

  -- One round, and what the next one starts from.
  round-Answers :
      (n : ℕ) (p : DeploymentPlan) (deadline : Time) (current : Members) (s : Session Cluster)
      → ((again : Members) (s' : Session Cluster)
          → leb deadline (time_of kubectl s.cluster) ≡ false
          → min (time_of kubectl s.cluster + 1000000) deadline ≤ time_of kubectl s'.cluster
          → Answers (await_rollout kubectl python x n p deadline again s'))
      → Answers (await_rollout kubectl python x (suc n) p deadline current s)
  unfolding await_rollout ◌>>=◌
  round-Answers n p deadline current s rest = ready_then (rollout_ready python p current)
    where
      waiting :
          leb deadline (time_of kubectl s.cluster) ≡ false
          → (s2 : Session Cluster) → time_of kubectl s.cluster ≤ time_of kubectl s2.cluster
          → Answers (
              (read_clock kubectl python x >>= λ later.
              wait_for kubectl python x (min (seconds 1) (deadline - later)) >>= λ _.
              check_namespace kubectl python x >>= λ _.
              read_deployment kubectl python x p.action.service
              >>= await_rollout kubectl python x n p deadline)
                s2)
      waiting early s2 l2 = clock_then _ s2 (λ s3 l3.
          wait_then (min (seconds 1) (deadline - time_of kubectl s2.cluster)) _ s3 (λ s4 l4.
            later_then (check_namespace kubectl python x) _ s4 check_namespace-IsLater (λ _ s5 l5.
              later_then (read_deployment kubectl python x p.action.service) _ s5
                (read_deployment-IsLater p.action.service)
                (λ again s6 l6. rest again s6 early (omega (arith, l2, l3, l4, l5, l6))))))

      ready_then :
          (r : Result Bool)
          → Answers (
              and_then r
                (λ ready.
                  if ready
                  then (read_clock kubectl python x >>= λ now.
                      receive kubectl python x p.action current (leb now deadline))
                  else (read_clock kubectl python x >>= λ now.
                      if leb deadline now
                      then receive kubectl python x p.action current false
                      else (read_clock kubectl python x >>= λ later.
                          wait_for kubectl python x (min (seconds 1) (deadline - later)) >>= λ _.
                          check_namespace kubectl python x >>= λ _.
                          read_deployment kubectl python x p.action.service
                          >>= await_rollout kubectl python x n p deadline)))
                s)
      ready_then (err e) = λ k. cc
      ready_then (ok true) =
          clock_then (λ now. receive kubectl python x p.action current (leb now deadline)) s
            (λ s2 l2.
              receive-Answers p.action current (leb (time_of kubectl s.cluster) deadline) s2)
      ready_then (ok false) = clock_then _ s (λ s2 l2.
          if-Answers (leb deadline (time_of kubectl s.cluster)) _ _ s2
            (receive-Answers p.action current false s2) (λ early. waiting early s2 l2))

  -- Enough rounds: one, and one more for each second that is left.
  pub await_rollout-Answers :
      (n : ℕ) (p : DeploymentPlan) (deadline : Time) (current : Members) (s : Session Cluster)
      → deadline ≤ time_of kubectl s.cluster + n * 1000000
      → Answers (await_rollout kubectl python x (suc n) p deadline current s)
  await_rollout-Answers zero p deadline current s le =
      round-Answers zero p deadline current s
        (λ again s' early l. absurd (ground (arith, early, le)))
  await_rollout-Answers (suc n) p deadline current s le =
      round-Answers (suc n) p deadline current s
        (λ again s' early l. await_rollout-Answers n p deadline again s' (omega (arith, le, l)))

  -- The wait for a rollout ends: with one round more than there are seconds in the postcheck, an
  -- execution is never cut off, it returns a receipt or raises. The clock never goes back, and a wait
  -- moves it on by its length at least.
  pub execute_plan-Answers :
      (rounds : ℕ) (a : Action) (key : String) (s : Session Cluster)
      → x.postcheck ≤ rounds * 1000000
      → (execute_plan kubectl python x (suc rounds) a key s).0 ≢ ok none
  unfolding execute_plan
  execute_plan-Answers rounds a key s le =
      later_then (lift (validate_target a x.inventory)) _ s (Within-lift IsLater-order _) (λ _ s1 _.
        later_then (check_namespace kubectl python x) _ s1 check_namespace-IsLater (λ _ s2 _.
          later_then (read_deployment kubectl python x a.service) _ s2
            (read_deployment-IsLater a.service)
            (λ current s3 _.
              later_then
                (lift (
                  plan_deployment python.digest python.is_image a current key x.inventory
                    (x.revisions a.service)))
                _ s3 (Within-lift IsLater-order _)
                (λ plan s4 _.
                  later_then
                    (run_command kubectl python x (patch_deployment a.service (patch plan))) _ s4
                    (run_command-IsLater (patch_deployment a.service (patch plan)))
                    (λ patched s5 _. clock_then _ s5 (λ s6 l6.
                      await_rollout-Answers rounds plan (time_of kubectl s5.cluster + x.postcheck)
                        patched s6 (omega (arith, le, l6))))))))
