-- ===== src/Orchestrator/Investigation/Termination.antt =====
-- Every investigation of src/payops/orchestrator/graph.py without a reasoner ends with a report.
use pay_ops.Base.{
  ℕ, suc, Bool, true, false, if◌then◌else◌, ◌≡◌, ◌≢◌, refl, sym, ap, subst, none, some, [], inl,
  inr, ◌⊎◌, Option-cases,
}
use pay_ops.Base.Result.{Result, ok}
use pay_ops.Base.Action.{◌>>=◌}
use pay_ops.Base.Table.{Codec}
use pay_ops.Contracts.{Incident, incident_valid}
use pay_ops.Orchestrator.Investigation.States.{
  Phase, Collection, InvestigationBudget, InvestigationState, budget_out_of_range, updated, pack,
  unpack,
}
use pay_ops.Orchestrator.Investigation.Nodes.{
  Moment, NodeHost, Node, triage, reserve, collect, rank, finish, route,
}
use pay_ops.Orchestrator.Investigation.Steps.{Directory}
use pay_ops.Orchestrator.Investigation.Walk.{run_node, next_node, run_packed, walk_on, walk}
use pay_ops.Orchestrator.Investigation.Progress.{IsUnderway, IsReliable, updated-ok}
use pay_ops.Orchestrator.Investigation.Operations.{Advanced, Reaches}
use pay_ops.Orchestrator.Investigation.Completion.{
  node-Advanced, IsPaused, IsFinished, finish_state-IsFinished,
}

route-closed : (t : InvestigationState) → t.terminal ≢ none → route t ≡ ok finish
unfolding route
route-closed t n = elim (Option-cases t.terminal) [ inl e ↦ absurd (n e) | inr (r, e) ↦ rw e refl ]

-- The edges of a state that goes on.
route-open :
    (t : InvestigationState)
    → t.terminal ≡ none
    → (t.phase ≡ Phase.triaged → route t ≡ ok reserve)
      × (t.phase ≡ Phase.reads_reserved → route t ≡ ok collect)
      × (t.phase ≡ Phase.evidence_collected → route t ≡ ok rank)
unfolding route
route-open t open_ = (λ p. rw (open_, p) refl, λ p. rw (open_, p) refl, λ p. rw (open_, p) refl)

module _ {Artifacts Text : Type 0} (host : NodeHost Artifacts Text) (batch : Codec Collection Text)
    (i : Incident) (b : InvestigationBudget) (valid : incident_valid i ≡ ok tt)
    (in_range : budget_out_of_range b ≡ false) (codec : Codec InvestigationState Text)
    (clock : ℕ → Moment) (pause : Bool) where
  -- What a walk leaves: a report, or, for a worker that pauses, what was collected before ranking.
  abbrev pub IsOver : InvestigationState → Type 0
  IsOver s = IsFinished i b s ⊎ (pause ≡ true) × IsPaused i b s

  pub record Ends (x : Result Text × Directory host batch) : Type 0 where
    pub value : Text
    pub world : Directory host batch
    pub state : InvestigationState
    pub returned : x ≡ (ok value, world)
    pub stored : unpack codec value ≡ ok state
    pub done : IsOver state

  unpack-pack : (s : InvestigationState) → updated s ≡ ok s → unpack codec (pack codec s) ≡ ok s
  unfolding unpack pack
  unpack-pack s e = rw (codec.read-write s) e

  -- One node of a walk.
  walk_node :
      (n : ℕ) (node : Node) (s t : InvestigationState) (w w' : Directory host batch)
      → updated s ≡ ok s
      → updated t ≡ ok t
      → run_node host batch (clock n) node s w ≡ (ok t, w')
      → walk host batch codec clock pause (suc n) node (pack codec s) w
        ≡ walk_on host batch codec clock pause
            (walk host batch codec clock pause n)
            (pack codec t)
            (next_node host batch node t)
            w'
  unfolding walk run_packed ◌>>=◌
  walk_node n node s t w w' e e' h = rw (unpack-pack s e, h, unpack-pack t e') refl

  finish-Ends :
      (n : ℕ) (s : InvestigationState) (w : Directory host batch)
      → IsUnderway host batch i b s w
      → Ends (walk host batch codec clock pause (suc n) finish (pack codec s) w)
  unfolding run_node next_node ◌>>=◌
  finish-Ends n s w u =
      let (t, e, whole, done) =
        finish_state-IsFinished host batch i b valid in_range host.total (clock n) s w u in
      record {
        value = pack codec t;
        world = w;
        state = t;
        returned =
            walk_node n finish s t w w (updated-ok host batch i b valid in_range s w u) whole
              (ap (λ x. (x, w)) e);
        stored = unpack-pack t whole;
        done = inl done;
      }

  -- A node that leaves a state on its way, and what follows it.
  advance-Ends :
      (p : Phase) (n : ℕ) (node : Node) (s : InvestigationState) (w : Directory host batch)
      → IsUnderway host batch i b s w
      → Advanced host batch i b p (run_node host batch (clock n) node s w)
      → ((t : InvestigationState) (w' : Directory host batch)
          → IsUnderway host batch i b t w'
          → Reaches host batch i b p t
          → (t.hypotheses ≡ []) ⊎ (p ≡ Phase.ranked)
          → Ends (
              walk_on host batch codec clock pause
                (walk host batch codec clock pause n)
                (pack codec t)
                (next_node host batch node t)
                w'))
      → Ends (walk host batch codec clock pause (suc n) node (pack codec s) w)
  advance-Ends p n node s w u a rest =
      subst Ends
        (sym (
          walk_node n node s a.state w a.world (updated-ok host batch i b valid in_range s w u)
            (updated-ok host batch i b valid in_range a.state a.world a.underway) a.returned))
        (rest a.state a.world a.underway a.reached a.unranked)

  module _ (reliable : IsReliable host batch) (baseline : host.reasoner ≡ none) where
    rank-Ends :
        (n : ℕ) (s : InvestigationState) (w : Directory host batch)
        → IsUnderway host batch i b s w
        → s.hypotheses ≡ []
        → Ends (walk host batch codec clock pause (suc (suc n)) rank (pack codec s) w)
    unfolding next_node
    rank-Ends n s w u h =
        let (_, _, _, a) =
          node-Advanced host batch i b valid in_range (clock (suc n)) s w reliable baseline u h in
        advance-Ends Phase.ranked (suc n) rank s w u a (λ t w' u' r k. finish-Ends n t w' u')

    -- After a node that may end the investigation.
    branch-Ends :
        (p : Phase) (n : ℕ) (node following : Node) (s t : InvestigationState)
        (w : Directory host batch)
        → (t.terminal ≢ none → next_node host batch node t ≡ ok (some finish))
        → (t.terminal ≡ none → t.phase ≡ p → next_node host batch node t ≡ ok (some following))
        → IsUnderway host batch i b t w
        → Reaches host batch i b p t
        → (t.terminal ≡ none
            → t.phase ≡ p
            → Ends (
                walk_on host batch codec clock pause
                  (walk host batch codec clock pause (suc n))
                  (pack codec t)
                  (ok (some following))
                  w))
        → Ends (
            walk_on host batch codec clock pause
              (walk host batch codec clock pause (suc n))
              (pack codec t)
              (next_node host batch node t)
              w)
    branch-Ends p n node following s t w over on u (inl closed) k =
        rw (over closed) (finish-Ends n t w u)
    branch-Ends p n node following s t w over on u (inr (open_, phase)) k =
        rw (on open_ phase) (k open_ phase)

    unranked_before :
        (p : Phase) (t : InvestigationState)
        → p ≢ Phase.ranked
        → (t.hypotheses ≡ []) ⊎ (p ≡ Phase.ranked)
        → t.hypotheses ≡ []
    unranked_before p t n (inl h) = h
    unranked_before p t n (inr e) = absurd (n e)

    -- A worker that pauses stops before `rank`.
    rank_or_hold :
        (n : ℕ) (t : InvestigationState) (w : Directory host batch)
        → IsUnderway host batch i b t w
        → t.hypotheses ≡ []
        → t.terminal ≡ none
        → t.phase ≡ Phase.evidence_collected
        → Ends (
            walk_on host batch codec clock pause
              (walk host batch codec clock pause (suc (suc n)))
              (pack codec t)
              (ok (some rank))
              w)
    rank_or_hold n t w u h open_ phase = go pause refl
      where
        go :
            (held : Bool)
            → pause ≡ held
            → Ends (
                if held
                then (ok (pack codec t), w)
                else walk host batch codec clock pause (suc (suc n)) rank (pack codec t) w)
        go true e = record {
          value = pack codec t;
          world = w;
          state = t;
          returned = refl;
          stored = unpack-pack t (updated-ok host batch i b valid in_range t w u);
          done = inr (
            e,
            record {
              incident = u.incident;
              phase = phase;
              unended = open_;
              unranked = h;
              unreported = u.unreported;
              tool_calls = u.tool_calls;
              backend_reads = u.backend_reads;
            },
          );
        }
        go false e = rank-Ends n t w u h

    collect-Ends :
        (n : ℕ) (s : InvestigationState) (w : Directory host batch)
        → IsUnderway host batch i b s w
        → s.hypotheses ≡ []
        → Ends (walk host batch codec clock pause (suc (suc (suc n))) collect (pack codec s) w)
    unfolding next_node
    collect-Ends n s w u h =
        let (_, _, a, _) =
          node-Advanced host batch i b valid in_range (clock (suc (suc n))) s w reliable baseline u
            h in
        advance-Ends Phase.evidence_collected (suc (suc n)) collect s w u a (λ t w' u' r k.
          branch-Ends Phase.evidence_collected (suc n) collect rank s t w'
            (λ c. rw (route-closed t c, next_node) refl)
            (λ o p. rw ((route-open t o).2 p, next_node) refl) u' r
            (rank_or_hold n t w' u' (unranked_before Phase.evidence_collected t (λ e. cc) k)))

    reserve-Ends :
        (n : ℕ) (s : InvestigationState) (w : Directory host batch)
        → IsUnderway host batch i b s w
        → s.hypotheses ≡ []
        → Ends
            (walk host batch codec clock pause (suc (suc (suc (suc n)))) reserve (pack codec s) w)
    unfolding next_node
    reserve-Ends n s w u h =
        let (_, a, _, _) =
          node-Advanced host batch i b valid in_range (clock (suc (suc (suc n)))) s w reliable
            baseline u h in
        advance-Ends Phase.reads_reserved (suc (suc (suc n))) reserve s w u a (λ t w' u' r k.
          branch-Ends Phase.reads_reserved (suc (suc n)) reserve collect s t w'
            (λ c. rw (route-closed t c, next_node) refl)
            (λ o p. rw ((route-open t o).1 p, next_node) refl) u' r
            (λ o p. collect-Ends n t w' u' (unranked_before Phase.reads_reserved t (λ e. cc) k)))

    pub triage-Ends :
        (n : ℕ) (s : InvestigationState) (w : Directory host batch)
        → IsUnderway host batch i b s w
        → s.hypotheses ≡ []
        → Ends (
            walk host batch codec clock pause
              (suc (suc (suc (suc (suc n)))))
              triage
              (pack codec s)
              w)
    unfolding next_node
    triage-Ends n s w u h =
        let (a, _, _, _) =
          node-Advanced host batch i b valid in_range (clock (suc (suc (suc (suc n))))) s w reliable
            baseline u h in
        advance-Ends Phase.triaged (suc (suc (suc (suc n)))) triage s w u a (λ t w' u' r k.
          branch-Ends Phase.triaged (suc (suc (suc n))) triage reserve s t w'
            (λ c. rw (route-closed t c, next_node) refl)
            (λ o p. rw ((route-open t o).0 p, next_node) refl) u' r
            (λ o p. reserve-Ends n t w' u' (unranked_before Phase.triaged t (λ e. cc) k)))
