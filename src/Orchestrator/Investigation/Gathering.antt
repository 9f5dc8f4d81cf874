-- ===== src/Orchestrator/Investigation/Gathering.antt =====
-- `_collect` of src/payops/orchestrator/nodes.py on a state that is on its way.
use pay_ops.Base.{
  suc, true, false, ◌||◌, ◌≡◌, refl, sym, ap, ◌∙◌, subst, Option, none, some, [], ltb, Bool-cases,
  inl, inr, ◌⊎◌, ◌!=◌, string_eq, some_inj,
}
use pay_ops.Base.Result.{Result, ok, err, Error, integrity, value_error}
use pay_ops.Base.Table.{Codec}
use pay_ops.Contracts.{Incident, TerminalState, incident_valid}
use pay_ops.Orchestrator.Investigation.States.{
  Phase, Collection, InvestigationBudget, InvestigationState, budget_out_of_range,
}
use pay_ops.Orchestrator.Investigation.Nodes.{NodeHost, required_reads, collected}
use pay_ops.Orchestrator.Investigation.Steps.{
  Directory, mark_dispatched, retain, gather_dispatched, reread, collect_batch, is_integrity,
  is_unavailable, settled, collect_state,
}
use pay_ops.Orchestrator.Investigation.Dispatch.{mark_dispatched-ok, mark_dispatched-err}
use pay_ops.Orchestrator.Investigation.Progress.{IsUnderway, IsSound, IsReliable, Ids, keep}
use pay_ops.Orchestrator.Investigation.Operations.{Advanced, advance, ended}
use pay_ops.Orchestrator.Investigation.Checking.{AllOwn, verify_own-cases}

module _ {Artifacts Text : Type 0} (host : NodeHost Artifacts Text) (batch : Codec Collection Text)
    (i : Incident) (b : InvestigationBudget) (valid : incident_valid i ≡ ok tt)
    (in_range : budget_out_of_range b ≡ false) (reliable : IsReliable host batch) where
  -- A call that the handlers of `_collect` take over.
  pub record Handled (s : InvestigationState) (x : Result InvestigationState × Directory host batch)
      : Type 0 where
    pub error : Error
    pub world : Directory host batch
    pub raised : x ≡ (err error, world)
    pub taken : is_unavailable host batch error ≡ true
    pub underway : IsUnderway host batch i b s world

  collected-cases :
      (s : InvestigationState) (c : Collection) (a : Artifacts) (w : Directory host batch)
      → IsUnderway host batch i b s w
      → s.hypotheses ≡ []
      → s.terminal ≡ none
      → Ids c.evidence
      → Advanced host batch i b Phase.evidence_collected (collected (host.verifiers a) s c, w)
        ⊎ Handled s (collected (host.verifiers a) s c, w)
  unfolding collected
  collected-cases s c a w u h open_ ids =
      elim (Bool-cases (c.incident_id != s.incident.incident_id)) [
        | inl e ↦ rw e (
            inr
              (record { error = integrity; world = w; raised = refl; taken = refl; underway = u }))
        | inr e ↦
            rw e
              (elim (verify_own-cases (host.verifiers a) (reliable.check_errors a)
                s.incident.incident_id c.evidence) [
                  | inr k ↦ rw k (
                      inr (record {
                        error = integrity;
                        world = w;
                        raised = refl;
                        taken = refl;
                        underway = u;
                      }))
                  | inl (k, own) ↦ rw k (
                      inl (
                        advance host batch i b valid in_range Phase.evidence_collected _ w
                          (record {
                            incident = u.incident;
                            budget = u.budget;
                            unreported = u.unreported;
                            receipts = u.receipts;
                            steps = u.steps;
                            tool_calls = u.tool_calls;
                            backend_reads = u.backend_reads;
                            citable = record {
                              distinct_evidence = ids;
                              own_evidence =
                                  subst (λ (x : Incident). AllOwn x.incident_id c.evidence)
                                    u.incident own;
                              distinct_causes = rw h tt;
                              grounded = rw h tt;
                            };
                            sound = u.sound;
                          })
                          (inr (open_, refl)) (inl h)))
                ])
      ]

  settled-Advanced :
      (s : InvestigationState) (x : Result InvestigationState × Directory host batch)
      → s.hypotheses ≡ []
      → Advanced host batch i b Phase.evidence_collected x ⊎ Handled s x
      → Advanced host batch i b Phase.evidence_collected (settled host batch s x)
  settled-Advanced s x h (inl a) = rw a.returned (record {
    state = a.state;
    world = a.world;
    returned = refl;
    underway = a.underway;
    reached = a.reached;
    unranked = a.unranked;
  })
  settled-Advanced s x h (inr k) = rw k.raised (elim (Bool-cases (is_integrity k.error)) [
    | inl e ↦ rw e (
        ended host batch i b valid in_range Phase.evidence_collected s _ k.world
          TerminalState.security_block k.underway h refl)
    | inr e ↦
        rw (e, k.taken)
          (ended host batch i b valid in_range Phase.evidence_collected s _ k.world
            TerminalState.dependency_unavailable k.underway h refl)
  ])

  -- The collector's call in a directory that has its marker.
  gathered-cases :
      (s : InvestigationState) (w : Directory host batch) (x : Result Collection × Artifacts)
      → IsUnderway host batch i b s w
      → s.hypotheses ≡ []
      → s.terminal ≡ none
      → host.collector s.incident w.artifacts ≡ x
      → Advanced host batch i b Phase.evidence_collected (
          retain host batch s
            (x.0, record w { dispatched = true; artifacts = x.1; batches = suc w.batches }))
        ⊎ Handled s (
            retain host batch s
              (x.0, record w { dispatched = true; artifacts = x.1; batches = suc w.batches }))
  gathered-cases s w (err e, a) u h open_ k = inr (record {
    error = e;
    world = record w { dispatched = true; artifacts = a; batches = suc w.batches };
    raised = refl;
    taken = reliable.collector_errors s.incident w.artifacts e (ap (λ x. x.0) k);
    underway = keep host batch i b u whole refl refl;
  })
    where
      whole :
          IsSound host batch
            (record w { dispatched = true; artifacts = a; batches = suc w.batches })
      whole = record {
        attempt_numbers = u.sound.attempt_numbers;
        attempt_limit = u.sound.attempt_limit;
        retained_ids = u.sound.retained_ids;
      }
  gathered-cases s w (ok c, a) u h open_ k =
      let ids = reliable.collector_ids s.incident w.artifacts c (ap (λ x. x.0) k) in
      let w' : Directory host batch = record w {
        dispatched = true;
        artifacts = a;
        batches = suc w.batches;
        retained = some (batch.write c);
      } in
      collected-cases s c a w'
        (keep host batch i b u
          (record {
            attempt_numbers = u.sound.attempt_numbers;
            attempt_limit = u.sound.attempt_limit;
            retained_ids = λ text c' e e'.
                subst (λ (x : Collection). Ids x.evidence)
                  (some_inj (sym (batch.read-write c) ∙ ap batch.read (some_inj e) ∙ e')) ids;
          })
          refl refl)
        h open_ ids

  dispatched-cases :
      (s : InvestigationState) (w : Directory host batch) (d : Result (Directory host batch))
      → IsUnderway host batch i b s w
      → s.hypotheses ≡ []
      → s.terminal ≡ none
      → mark_dispatched host batch w ≡ d
      → Advanced host batch i b Phase.evidence_collected (gather_dispatched host batch s d w)
        ⊎ Handled s (gather_dispatched host batch s d w)
  dispatched-cases s w (err e) u h open_ k = inr (record {
    error = e;
    world = w;
    raised = refl;
    taken = mark_dispatched-err host batch w e k;
    underway = u;
  })
  dispatched-cases s w (ok w') u h open_ k =
      rw (mark_dispatched-ok host batch w w' k).1
        (gathered-cases s w (host.collector s.incident w.artifacts) u h open_ refl)

  retained-cases :
      (s : InvestigationState) (w : Directory host batch) (kept : Option Text)
      → IsUnderway host batch i b s w
      → s.hypotheses ≡ []
      → s.terminal ≡ none
      → w.retained ≡ kept
      → Advanced host batch i b Phase.evidence_collected (collect_batch host batch s kept w)
        ⊎ Handled s (collect_batch host batch s kept w)
  retained-cases s w none u h open_ k =
      dispatched-cases s w (mark_dispatched host batch w) u h open_ refl
  retained-cases s w (some text) u h open_ k = read_back (batch.read text) refl
    where
      read_back :
          (c : Option Collection)
          → batch.read text ≡ c
          → Advanced host batch i b Phase.evidence_collected (reread host batch s w c, w)
            ⊎ Handled s (reread host batch s w c, w)
      read_back none e =
          inr (record { error = value_error; world = w; raised = refl; taken = refl; underway = u })
      read_back (some c) e =
          collected-cases s c w.artifacts w u h open_ (u.sound.retained_ids text c k e)

  pub collect_state-Advanced :
      (s : InvestigationState) (w : Directory host batch)
      → IsUnderway host batch i b s w
      → s.hypotheses ≡ []
      → s.terminal ≡ none
      → Advanced host batch i b Phase.evidence_collected (collect_state host batch s w)
  unfolding collect_state
  collect_state-Advanced s w u h open_ =
      elim (Bool-cases
        (ltb s.tool_calls_reserved 20 || ltb s.backend_reads_reserved (required_reads s))) [
          | inl e ↦ rw e (
              ended host batch i b valid in_range Phase.evidence_collected s _ w
                TerminalState.budget_exhausted u h refl)
          | inr e ↦ rw e (settled-Advanced s _ h (retained-cases s w w.retained u h open_ refl))
        ]
