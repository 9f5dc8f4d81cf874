-- ===== src/Orchestrator/Investigation/Operations.antt =====
-- The operations of the nodes of src/payops/orchestrator/nodes.py, on a state that is on its way: each one
-- returns, and leaves a state on its way.
use pay_ops.Base.{
  ◌+◌, false, ◌≡◌, ◌≢◌, refl, sym, ap, subst, Option, none, some, [], ltb, arith, Bool-cases, inl,
  inr, ◌⊎◌, string_eq,
}
use pay_ops.Base.Result.{Result, ok}
use pay_ops.Base.Table.{Codec}
use pay_ops.Contracts.{Incident, TerminalState, incident_valid}
use pay_ops.Orchestrator.Investigation.States.{
  Phase, Collection, InvestigationBudget, InvestigationState, budget_out_of_range, updated,
}
use pay_ops.Orchestrator.Investigation.Nodes.{
  NodeHost, required_reads, triage_scope, triage_state, reserve_reads,
}
use pay_ops.Orchestrator.Investigation.Steps.{Directory}
use pay_ops.Orchestrator.Investigation.Progress.{IsUnderway, keep, updated-ok}

module _ {Artifacts Text : Type 0} (host : NodeHost Artifacts Text) (batch : Codec Collection Text)
    (i : Incident) (b : InvestigationBudget) where
  -- The investigation is over, or its next phase is `p`.
  abbrev pub Reaches : Phase → InvestigationState → Type 0
  Reaches p t = (t.terminal ≢ none) ⊎ (t.terminal ≡ none) × (t.phase ≡ p)

  -- What an operation returns with.
  pub record Advanced (p : Phase) (x : Result InvestigationState × Directory host batch)
      : Type 0 where
    pub state : InvestigationState
    pub world : Directory host batch
    pub returned : x ≡ (ok state, world)
    pub underway : IsUnderway host batch i b state world
    pub reached : Reaches p state
    pub unranked : (state.hypotheses ≡ []) ⊎ (p ≡ Phase.ranked)

module _ {Artifacts Text : Type 0} (host : NodeHost Artifacts Text) (batch : Codec Collection Text)
    (i : Incident) (b : InvestigationBudget) (valid : incident_valid i ≡ ok tt)
    (in_range : budget_out_of_range b ≡ false) where
  -- A validated update of a state on its way.
  pub advance :
      (p : Phase) (t : InvestigationState) (w : Directory host batch)
      → IsUnderway host batch i b t w
      → Reaches host batch i b p t
      → (t.hypotheses ≡ []) ⊎ (p ≡ Phase.ranked)
      → Advanced host batch i b p (updated t, w)
  advance p t w u r h = record {
    state = t;
    world = w;
    returned = ap (λ x. (x, w)) (updated-ok host batch i b valid in_range t w u);
    underway = u;
    reached = r;
    unranked = h;
  }

  -- The state has ended for a reason of its own.
  pub ended :
      (p : Phase) (s t : InvestigationState) (w : Directory host batch) (r : TerminalState)
      → IsUnderway host batch i b s w
      → s.hypotheses ≡ []
      → t ≡ record s {
        terminal = some r;
        failures = t.failures;
        reasoning_stop_reason = t.reasoning_stop_reason;
      }
      → Advanced host batch i b p (updated t, w)
  ended p s t w r u h e =
      subst (λ x. Advanced host batch i b p (updated x, w)) (sym e)
        (advance p _ w (keep host batch i b u u.sound refl refl) (inl (λ h. cc)) (inl h))

  pub triage_state-Advanced :
      (s : InvestigationState) (w : Directory host batch)
      → IsUnderway host batch i b s w
      → s.hypotheses ≡ []
      → Advanced host batch i b Phase.triaged (triage_state s, w)
  unfolding triage_state
  triage_state-Advanced s w u h =
      advance Phase.triaged (record s { phase = Phase.triaged; terminal = triage_scope s }) w
        (keep host batch i b u u.sound refl refl) (scoped (triage_scope s)) (inl h)
    where
      scoped :
          (t : Option TerminalState) → (t ≢ none) ⊎ (t ≡ none) × (Phase.triaged ≡ Phase.triaged)
      scoped none = inr (refl, refl)
      scoped (some r) = inl (λ e. cc)

  pub reserve_reads-Advanced :
      (s : InvestigationState) (w : Directory host batch)
      → IsUnderway host batch i b s w
      → s.hypotheses ≡ []
      → s.terminal ≡ none
      → Advanced host batch i b Phase.reads_reserved (reserve_reads s, w)
  unfolding reserve_reads
  reserve_reads-Advanced s w u h open_ =
      elim (Bool-cases (ltb s.budget.max_tool_calls (s.tool_calls_reserved + 20))) [
        | inl e ↦ rw e (ended Phase.reads_reserved s _ w TerminalState.budget_exhausted u h refl)
        | inr e ↦
            rw e
              (elim (Bool-cases
                (ltb s.budget.max_backend_reads (s.backend_reads_reserved + required_reads s))) [
                  | inl e' ↦
                      rw e'
                        (ended Phase.reads_reserved s _ w TerminalState.budget_exhausted u h refl)
                  | inr e' ↦ rw e' (
                      advance Phase.reads_reserved _ w
                        (record {
                          incident = u.incident;
                          budget = u.budget;
                          unreported = u.unreported;
                          receipts = u.receipts;
                          steps = u.steps;
                          tool_calls =
                              ground (arith, e, ap InvestigationBudget.max_tool_calls u.budget);
                          backend_reads =
                              ground (arith, e', ap InvestigationBudget.max_backend_reads u.budget);
                          citable = u.citable;
                          sound = u.sound;
                        })
                        (inr (open_, refl)) (inl h))
                ])
      ]
