-- ===== src/Orchestrator/Investigation/Dispatch.antt =====
-- Workers, crashes included, on the directory of one incident that src/payops/orchestrator/nodes.py
-- writes: how many attempts it records, and how often the collector is called.
use pay_ops.Base.{
  ℕ, suc, ◌≤◌, max, Bool, true, false, ◌||◌, ◌≡◌, refl, sym, ◌∙◌, subst, Option, none, some, leb,
  ltb, is_some, contains, nat_eq, length, if◌then◌else◌, Time, arith, Bool-cases, inl, inr,
}
use pay_ops.Base.Result.{Result, ok, err, Error, os_error, ok_inj}
use pay_ops.Base.Action.{Exec, pure}
use pay_ops.Base.Action.Triple.{IsPreorder, Within, Within-pure, Within-lift, Within-bind}
use pay_ops.Base.Table.{Codec}
use pay_ops.Orchestrator.Investigation.States.{Collection, InvestigationState}
use pay_ops.Orchestrator.Investigation.Nodes.{
  Moment, NodeHost, Node, triage, reserve, collect, rank, finish, verify_all, required_reads,
}
use pay_ops.Orchestrator.Investigation.Steps.{
  Directory, reserve_attempt, mark_dispatched, retain, gather_dispatched, collect_batch,
  collect_state, reason_with, rank_verified, block, rank_state, settled, is_unavailable,
}
use pay_ops.Orchestrator.Investigation.Walk.{step, run_node}

abbrev error_of : {A : Type 0} → Result A → Error
error_of (err e) = e
error_of (ok a) = os_error

module _ {Artifacts Text : Type 0} (host : NodeHost Artifacts Text)
    (batch : Codec Collection Text) where
  -- The marker is there before the collector is called.
  abbrev pub IsMarked : Directory host batch → Type 0
  IsMarked w = w.batches ≤ (if w.dispatched then 1 else 0)

  -- A move of the directory that keeps the marker's promise, and at most `n` attempts.
  pub record Moves (n : ℕ) (w w' : Directory host batch) : Type 0 where
    pub marked : IsMarked w → IsMarked w'
    pub bounded : length w.attempts ≤ n → length w'.attempts ≤ n

  pub Moves-order : (n : ℕ) → IsPreorder (Moves n)
  Moves-order n = record {
    same = λ w. record { marked = λ h. h; bounded = λ h. h };
    chain = λ a b c f g. record {
      marked = λ h. g.marked (f.marked h);
      bounded = λ h. g.bounded (f.bounded h);
    };
  }

  pub reserve_attempt-Moves :
      (n : ℕ) (now : Time) (s : InvestigationState) (w : Directory host batch)
      → s.budget.max_steps ≤ n
      → Moves n w (reserve_attempt host batch now s w).1
  unfolding reserve_attempt
  reserve_attempt-Moves n now s w le =
      elim (Bool-cases (leb s.budget.max_steps used || leb s.budget.node_start_deadline now)) [
        | inl e ↦ rw e ((Moves-order n).same w)
        | inr e ↦ rw e (elim (Bool-cases (contains (suc used) w.attempts)) [
          | inl c ↦ rw c ((Moves-order n).same w)
          | inr c ↦ rw c (record { marked = λ h. h; bounded = λ h. ground (arith, e, le, h) })
        ])
      ]
    where
      used : ℕ
      used = max s.steps_used (length w.attempts)

  pub mark_dispatched-ok :
      (w w' : Directory host batch)
      → mark_dispatched host batch w ≡ ok w'
      → (w.dispatched ≡ false) × (w' ≡ record w { dispatched = true })
  unfolding mark_dispatched
  mark_dispatched-ok w w' h = elim (Bool-cases w.dispatched) [
    | inl e ↦
        let taken : mark_dispatched host batch w ≡ err os_error = rw e refl in
        absurd (cc (sym taken ∙ h))
    | inr e ↦
        let free : mark_dispatched host batch w ≡ ok (record w { dispatched = true }) = rw e refl in
        (e, ok_inj (sym h ∙ free))
  ]

  pub mark_dispatched-err :
      (w : Directory host batch) (e : Error)
      → mark_dispatched host batch w ≡ err e
      → is_unavailable host batch e ≡ true
  unfolding mark_dispatched
  mark_dispatched-err w e h = elim (Bool-cases w.dispatched) [
    | inl t ↦
        let taken : mark_dispatched host batch w ≡ err os_error = rw t refl in
        subst (λ (x : Result (Directory host batch)). is_unavailable host batch (error_of x) ≡ true)
          (sym taken ∙ h) refl
    | inr t ↦
        let free : mark_dispatched host batch w ≡ ok (record w { dispatched = true }) = rw t refl in
        absurd (cc (sym free ∙ h))
  ]

  -- The marker, and then the collector's call.
  pub gather-Moves :
      (n : ℕ) (w w' : Directory host batch) (a : Artifacts) (kept : Option Text)
      → mark_dispatched host batch w ≡ ok w'
      → Moves n w (record w' { artifacts = a; batches = suc w'.batches; retained = kept })
  gather-Moves n w w' a kept h =
      let (free, e) = mark_dispatched-ok w w' h in
      rw e (record { marked = λ m. ground (arith, free, m); bounded = λ b. b })

  dispatch_gather-Moves :
      (n : ℕ) (s : InvestigationState) (w : Directory host batch)
      → Moves n w (gather_dispatched host batch s (mark_dispatched host batch w) w).1
  dispatch_gather-Moves n s w = go (mark_dispatched host batch w) refl
    where
      gathered :
          (w' : Directory host batch)
          → mark_dispatched host batch w ≡ ok w'
          → (x : Result Collection × Artifacts)
          → Moves n w
              (retain host batch s (x.0, record w' { artifacts = x.1; batches = suc w'.batches })).1
      gathered w' h (ok c, a) = gather-Moves n w w' a (some (batch.write c)) h
      gathered w' h (err x, a) = gather-Moves n w w' a w'.retained h

      go :
          (d : Result (Directory host batch))
          → mark_dispatched host batch w ≡ d
          → Moves n w (gather_dispatched host batch s d w).1
      go (err e) h = (Moves-order n).same w
      go (ok w') h = gathered w' h (host.collector s.incident w'.artifacts)

  collect_state-Moves :
      (n : ℕ) (s : InvestigationState) → Within (Moves n) (collect_state host batch s)
  unfolding collect_state
  collect_state-Moves n s = record {
    at = λ w.
        elim (Bool-cases
          (ltb s.tool_calls_reserved 20 || ltb s.backend_reads_reserved (required_reads s))) [
            | inl e ↦ rw e ((Moves-order n).same w)
            | inr e ↦ rw e (go w w.retained)
          ];
  }
    where
      go :
          (w : Directory host batch) (kept : Option Text)
          → Moves n w (settled host batch s (collect_batch host batch s kept w)).1
      go w (some text) = (Moves-order n).same w
      go w none = dispatch_gather-Moves n s w

  artifacts-Moves :
      (n : ℕ) (w : Directory host batch) (a : Artifacts) → Moves n w (record w { artifacts = a })
  artifacts-Moves n w a = record { marked = λ h. h; bounded = λ h. h }

  block-world :
      (s : InvestigationState) (x : Result InvestigationState × Directory host batch)
      → (block host batch s x).1 ≡ x.1
  block-world s (ok t, w) = refl
  block-world s (err e, w) = refl

  rank_state-Moves : (n : ℕ) (s : InvestigationState) → Within (Moves n) (rank_state host batch s)
  unfolding rank_state
  rank_state-Moves n s = record {
    at = λ w.
        subst (Moves n w) (sym (block-world s _))
          (ranked_world w (verify_all (host.verifiers w.artifacts) s.evidence));
  }
    where
      reasoned :
          (w : Directory host batch)
          (r : Option (InvestigationState → Artifacts → Result InvestigationState × Artifacts))
          → Moves n w (reason_with host batch r s w).1
      reasoned w none = (Moves-order n).same w
      reasoned w (some reasoner) = artifacts-Moves n w (reasoner s w.artifacts).1

      ranked_world :
          (w : Directory host batch) (v : Result (Unit {0}))
          → Moves n w (rank_verified host batch v s w).1
      ranked_world w (err e) = (Moves-order n).same w
      ranked_world w (ok _) = reasoned w host.reasoner

  step-Moves :
      (n : ℕ) (m : Moment) (node : Node) (s : InvestigationState)
      (operation : InvestigationState → Exec (Directory host batch) InvestigationState)
      → s.budget.max_steps ≤ n
      → ((t : InvestigationState) → Within (Moves n) (operation t))
      → Within (Moves n) (step host batch m node operation s)
  unfolding step
  step-Moves n m node s operation le h =
      Within-bind (Moves-order n) (reserve_attempt host batch m.now s) _
        (record { at = λ w. reserve_attempt-Moves n m.now s w le })
        (λ reserved.
          Within-bind (Moves-order n)
            (if is_some reserved.terminal then pure reserved else operation reserved) _
            (chosen reserved (is_some reserved.terminal)) (λ result. Within-lift (Moves-order n) _))
    where
      chosen :
          (t : InvestigationState) (b : Bool) → Within (Moves n) (if b then pure t else operation t)
      chosen t true = Within-pure (Moves-order n) t
      chosen t false = h t

  pub run_node-Moves :
      (n : ℕ) (m : Moment) (node : Node) (s : InvestigationState)
      → s.budget.max_steps ≤ n
      → Within (Moves n) (run_node host batch m node s)
  unfolding run_node
  run_node-Moves n m triage s le = step-Moves n m triage s _ le (λ t. Within-lift (Moves-order n) _)
  run_node-Moves n m reserve s le =
      step-Moves n m reserve s _ le (λ t. Within-lift (Moves-order n) _)
  run_node-Moves n m collect s le = step-Moves n m collect s _ le (collect_state-Moves n)
  run_node-Moves n m rank s le = step-Moves n m rank s _ le (rank_state-Moves n)
  run_node-Moves n m finish s le = Within-lift (Moves-order n) _
