-- ===== src/Orchestrator/Investigation/Completion.antt =====
-- The walk of src/payops/orchestrator/graph.py reaches its report.
use pay_ops.Base.{
  ℕ, ◌≤◌, false, ◌≡◌, refl, sym, ap, ◌∙◌, subst, none, some, List, [], inl, inr, All, is_some,
  if◌then◌else◌, Option-cases,
}
use pay_ops.Base.Result.{Result, ok}
use pay_ops.Base.Action.{Exec, ◌>>=◌, pure, lift, and_then}
use pay_ops.Base.Table.{Codec}
use pay_ops.Contracts.{EvidenceItem, Incident, IncidentReport, incident_valid, validate_citations}
use pay_ops.Contracts.Citations.{validate_citations_iff}
use pay_ops.Orchestrator.Investigation.States.{
  Phase, Collection, InvestigationBudget, InvestigationState, StepRecord, budget_out_of_range,
  state_valid, updated,
}
use pay_ops.Orchestrator.Investigation.Nodes.{
  Moment, NodeHost, Node, triage, reserve, collect, rank, final_report, finish_state,
}
use pay_ops.Orchestrator.Investigation.Steps.{Directory, collect_state, rank_state}
use pay_ops.Orchestrator.Investigation.Walk.{step, run_node}
use pay_ops.Orchestrator.Investigation.Progress.{
  IsUnderway, IsReliable, keep, reserve_attempt-ok, numbers_in_range,
}
use pay_ops.Orchestrator.Investigation.Operations.{
  Advanced, advance, triage_state-Advanced, reserve_reads-Advanced,
}
use pay_ops.Orchestrator.Investigation.Gathering.{collect_state-Advanced}
use pay_ops.Orchestrator.Investigation.Ranking.{rank_state-Advanced}

module _ (i : Incident) (b : InvestigationBudget) where
  -- An investigation that stops for inspection: it has its evidence and neither an outcome nor a report.
  pub record IsPaused (s : InvestigationState) : Type 0 where
    pub incident : s.incident ≡ i
    pub phase : s.phase ≡ Phase.evidence_collected
    pub unended : s.terminal ≡ none
    pub unranked : s.hypotheses ≡ []
    pub unreported : s.report ≡ none
    pub tool_calls : s.tool_calls_reserved ≤ b.max_tool_calls
    pub backend_reads : s.backend_reads_reserved ≤ b.max_backend_reads

  -- An investigation that has its report.
  pub record IsFinished (s : InvestigationState) : Type 0 where
    pub phase : s.phase ≡ Phase.finished
    pub final : IncidentReport
    pub report : s.report ≡ some final
    pub cited : validate_citations final ≡ ok tt
    pub own : final.incident_id ≡ i.incident_id
    pub tool_calls : s.tool_calls_reserved ≤ b.max_tool_calls
    pub backend_reads : s.backend_reads_reserved ≤ b.max_backend_reads

module _ {Artifacts Text : Type 0} (host : NodeHost Artifacts Text) (batch : Codec Collection Text)
    (i : Incident) (b : InvestigationBudget) (valid : incident_valid i ≡ ok tt)
    (in_range : budget_out_of_range b ≡ false) where
  abbrev After : Phase → Result InvestigationState × Directory host batch → Type 0
  After = Advanced host batch i b

  abbrev Underway : InvestigationState → Directory host batch → Type 0
  Underway = IsUnderway host batch i b

  -- The record of a step that `_step` adds.
  logged :
      (p : Phase) (ss : List StepRecord) (x : Result InvestigationState × Directory host batch)
      → After p x
      → After p (and_then x.0 (λ result. lift (updated (record result { steps = ss }))) x.1)
  unfolding ◌>>=◌
  logged p ss x a = rw a.returned (
      advance host batch i b valid in_range p (record a.state { steps = ss }) a.world
        (keep host batch i b a.underway a.underway.sound refl refl) a.reached a.unranked)

  step-Advanced :
      (p : Phase) (m : Moment) (node : Node) (s : InvestigationState) (w : Directory host batch)
      (operation : InvestigationState → Exec (Directory host batch) InvestigationState)
      → ((t : InvestigationState) (w' : Directory host batch)
          → Underway t w'
          → t.hypotheses ≡ []
          → t.terminal ≡ none
          → After p (operation t w'))
      → Underway s w
      → s.hypotheses ≡ []
      → After p (step host batch m node operation s w)
  unfolding step ◌>>=◌
  step-Advanced p m node s w operation go u h =
      let (t, w', e, same, u') = reserve_attempt-ok host batch i b valid in_range m.now s w u in
      rw e (logged p _ _ (chosen t w' u' (same ∙ h)))
    where
      chosen :
          (t : InvestigationState) (w' : Directory host batch)
          → Underway t w'
          → t.hypotheses ≡ []
          → After p ((if is_some t.terminal then pure t else operation t) w')
      chosen t w' u' h' = elim (Option-cases t.terminal) [
        | inl open_ ↦ rw (ap is_some open_) (go t w' u' h' open_)
        | inr (r, closed) ↦ rw (ap is_some closed) (record {
          state = t;
          world = w';
          returned = refl;
          underway = u';
          reached = inl (λ k. cc (closed, k));
          unranked = inl h';
        })
      ]

  -- Each node but the last leaves a state on its way.
  pub node-Advanced :
      (m : Moment) (s : InvestigationState) (w : Directory host batch)
      → IsReliable host batch
      → host.reasoner ≡ none
      → Underway s w
      → s.hypotheses ≡ []
      → After Phase.triaged (run_node host batch m triage s w)
        × After Phase.reads_reserved (run_node host batch m reserve s w)
        × After Phase.evidence_collected (run_node host batch m collect s w)
        × After Phase.ranked (run_node host batch m rank s w)
  unfolding run_node ◌>>=◌
  node-Advanced m s w reliable baseline u h = (
    step-Advanced Phase.triaged m triage s w _
        (λ t w' u' h' o. triage_state-Advanced host batch i b valid in_range t w' u' h') u h,
    step-Advanced Phase.reads_reserved m reserve s w _
        (λ t w' u' h' o. reserve_reads-Advanced host batch i b valid in_range t w' u' h' o) u h,
    step-Advanced Phase.evidence_collected m collect s w (collect_state host batch)
        (λ t w' u' h' o. collect_state-Advanced host batch i b valid in_range reliable t w' u' h' o)
        u h,
    step-Advanced Phase.ranked m rank s w (rank_state host batch)
        (λ t w' u' h' o.
          rank_state-Advanced host batch i b valid in_range reliable t w' baseline u' h')
        u h,
  )

  reported-valid :
      (s : InvestigationState) (w : Directory host batch) (r : IncidentReport)
      → Underway s w
      → validate_citations r ≡ ok tt
      → updated (record s { phase = Phase.finished; report = some r })
        ≡ ok (record s { phase = Phase.finished; report = some r })
  unfolding updated state_valid
  reported-valid s w r u cited =
      rw
        (
          numbers_in_range host batch i b valid in_range s w u,
          ap incident_valid u.incident,
          valid,
          cited,
        )
        refl

  pub finish_state-IsFinished :
      (total : List ℕ → ℕ) (m : Moment) (s : InvestigationState) (w : Directory host batch)
      → Underway s w
      → (t : InvestigationState) × (finish_state total m s ≡ ok t)
        × (updated t ≡ ok t)
        × IsFinished i b t
  unfolding finish_state
  finish_state-IsFinished total m s w u =
      let r = final_report total m s in
      let cited : validate_citations r ≡ ok tt = (validate_citations_iff r).1 (record {
        distinct_evidence = u.citable.distinct_evidence;
        own_evidence =
            subst
              (λ (x : Incident).
                All (λ (e : EvidenceItem). e.incident_id ≡ x.incident_id) s.evidence)
              (sym u.incident) u.citable.own_evidence;
        distinct_causes = u.citable.distinct_causes;
        grounded = u.citable.grounded;
      }) in
      let t : InvestigationState = record s { phase = Phase.finished; report = some r } in
      let whole : updated t ≡ ok t = reported-valid s w r u cited in
      (
        t,
        rw (cited, whole) refl,
        whole,
        record {
          phase = refl;
          final = r;
          report = refl;
          cited = cited;
          own = ap (λ (x : Incident). x.incident_id) u.incident;
          tool_calls = u.tool_calls;
          backend_reads = u.backend_reads;
        },
      )
