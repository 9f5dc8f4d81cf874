-- ===== src/Orchestrator/Investigation/Progress.antt =====
-- One pass of src/payops/orchestrator/graph.py through the nodes: what every node keeps, so that the
-- pass reaches its report.
use pay_ops.Base.{
  ℕ, zero, suc, ◌≤◌, max, String, true, false, ◌||◌, ◌≡◌, refl, ap, none, some, List, [], ◌∷◌, map,
  leb, contains, nat_eq, length, Time, arith, Bool-cases, inl, inr, IsDistinct,
}
use pay_ops.Base.Result.{ok, err, Error, is_value_error}
use pay_ops.Base.Table.{Codec}
use pay_ops.Contracts.{
  EvidenceItem, Incident, IncidentReport, TerminalState, RankingMethod, ReportMode,
  RootCauseHypothesis, incident_valid,
}
use pay_ops.Contracts.Citations.{IsConsistent}
use pay_ops.Orchestrator.Investigation.States.{
  Collection, InvestigationBudget, InvestigationState, out_of_range, budget_out_of_range,
  state_valid, updated,
}
use pay_ops.Orchestrator.Investigation.Nodes.{NodeHost}
use pay_ops.Orchestrator.Investigation.Steps.{Directory, reserve_attempt, is_unavailable}
use pay_ops.Evidence.Verification.{verify_evidence}

-- The attempt files that nodes leave: `attempt-01` to `attempt-n`, newest first.
abbrev pub numbered : ℕ → List ℕ
numbered zero = []
numbered (suc n) = suc n ∷ numbered n

pub length-numbered : (n : ℕ) → length (numbered n) ≡ n
length-numbered zero = refl
length-numbered (suc n) = ap suc (length-numbered n)

pub next_is_free : (n k : ℕ) → k ≤ n → contains (suc n) (numbered k) ≡ false
next_is_free n zero h = refl
next_is_free n (suc k) h = ground (arith, next_is_free n k (omega (arith, h)), h)

abbrev pub Ids : List EvidenceItem → Type 0
Ids es = IsDistinct (map (λ (e : EvidenceItem). e.evidence_id) es)

-- A report of which only the citations count.
abbrev pub citations_of : String → List EvidenceItem → List RootCauseHypothesis → IncidentReport
citations_of id es hs = record {
  incident_id = id;
  evidence = es;
  ranked_root_causes = hs;
  terminal_state = TerminalState.unrecoverable;
  mode = ReportMode.local_kind;
  duration_seconds = 0;
  ranking_method = RankingMethod.deterministic;
  reasoning_stop_reason = none;
  reasoning_receipts = [];
  trace_id = "";
}

module _ {Artifacts Text : Type 0} (host : NodeHost Artifacts Text)
    (batch : Codec Collection Text) where
  -- What nodes.py relies on: the collector and the checks of artifacts fail with errors that `_collect`
  -- and `rank` handle, and the collector gives each observation an identifier of its own.
  pub record IsReliable : Type 0 where
    pub collector_errors :
        (i : Incident) (a : Artifacts) (e : Error)
        → (host.collector i a).0 ≡ err e
        → is_unavailable host batch e ≡ true
    pub collector_ids :
        (i : Incident) (a : Artifacts) (c : Collection)
        → (host.collector i a).0 ≡ ok c
        → Ids c.evidence
    pub check_errors :
        (a : Artifacts) (item : EvidenceItem) (e : Error)
        → verify_evidence (host.verifiers a) item ≡ err e
        → is_value_error e ≡ true

  -- A directory whose attempts are numbered and whose retained collection has distinct observations.
  pub record IsSound (w : Directory host batch) : Type 0 where
    pub attempt_numbers : w.attempts ≡ numbered (length w.attempts)
    pub attempt_limit : length w.attempts ≤ 16
    pub retained_ids :
        (text : Text) (c : Collection)
        → w.retained ≡ some text
        → batch.read text ≡ some c
        → Ids c.evidence

  -- A state on its way, of incident `i` within budget `b`.
  pub record IsUnderway (i : Incident) (b : InvestigationBudget) (s : InvestigationState)
      (w : Directory host batch) : Type 0 where
    pub incident : s.incident ≡ i
    pub budget : s.budget ≡ b
    pub unreported : s.report ≡ none
    pub receipts : s.reasoning_receipts ≡ []
    pub steps : s.steps_used ≤ length w.attempts
    pub tool_calls : s.tool_calls_reserved ≤ b.max_tool_calls
    pub backend_reads : s.backend_reads_reserved ≤ b.max_backend_reads
    pub citable : IsConsistent (citations_of i.incident_id s.evidence s.hypotheses)
    pub sound : IsSound w

  -- A state that differs in its phase, its log and how it ended, in a directory with the same attempts.
  pub keep :
      (i : Incident) (b : InvestigationBudget) {s t : InvestigationState}
      {w w' : Directory host batch}
      → IsUnderway i b s w
      → IsSound w'
      → w'.attempts ≡ w.attempts
      → t ≡ record s {
        phase = t.phase;
        steps = t.steps;
        failures = t.failures;
        terminal = t.terminal;
        reasoning_stop_reason = t.reasoning_stop_reason;
      }
      → IsUnderway i b t w'
  keep i b u sound e same = rw same (record {
    incident = u.incident;
    budget = u.budget;
    unreported = u.unreported;
    receipts = u.receipts;
    steps = rw e u.steps;
    tool_calls = u.tool_calls;
    backend_reads = u.backend_reads;
    citable = u.citable;
    sound = sound;
  })

  module _ (i : Incident) (b : InvestigationBudget) (valid : incident_valid i ≡ ok tt)
      (in_range : budget_out_of_range b ≡ false) where
    -- Numbers within the budget are within the ranges of the fields.
    pub numbers_in_range :
        (s : InvestigationState) (w : Directory host batch)
        → IsUnderway i b s w
        → out_of_range s ≡ false
    numbers_in_range s w u =
        rw (u.budget, u.receipts)
          (ground (arith, in_range, u.steps, u.sound.attempt_limit, u.tool_calls, u.backend_reads))

    pub updated-ok :
        (s : InvestigationState) (w : Directory host batch) → IsUnderway i b s w → updated s ≡ ok s
    unfolding updated state_valid
    updated-ok s w u = rw (numbers_in_range s w u, u.incident, valid, u.unreported) refl

    -- A node's attempt, which ends the investigation or lets the node go on.
    pub reserve_attempt-ok :
        (now : Time) (s : InvestigationState) (w : Directory host batch)
        → IsUnderway i b s w
        → (t : InvestigationState) × (w' : Directory host batch) × (reserve_attempt host batch now s
              w
            ≡ (ok t, w'))
          × (t.hypotheses ≡ s.hypotheses)
          × IsUnderway i b t w'
    unfolding reserve_attempt
    reserve_attempt-ok now s w u =
        elim (Bool-cases (leb s.budget.max_steps used || leb s.budget.node_start_deadline now)) [
          | inl e ↦
              let t : InvestigationState = record s {
                steps_used = used;
                terminal = some TerminalState.budget_exhausted;
              } in
              let u' : IsUnderway i b t w = record {
                incident = u.incident;
                budget = u.budget;
                unreported = u.unreported;
                receipts = u.receipts;
                steps = omega (arith, used_is);
                tool_calls = u.tool_calls;
                backend_reads = u.backend_reads;
                citable = u.citable;
                sound = u.sound;
              } in
              (t, w, rw (e, updated-ok t w u') refl, refl, u')
          | inr e ↦
              let t : InvestigationState = record s { steps_used = suc used } in
              let w' : Directory host batch = record w { attempts = suc used ∷ w.attempts } in
              let free : contains (suc used) w.attempts ≡ false = cc (
                used_is,
                u.sound.attempt_numbers,
                next_is_free (length w.attempts) (length w.attempts) (omega arith),
              ) in
              let u' : IsUnderway i b t w' = record {
                incident = u.incident;
                budget = u.budget;
                unreported = u.unreported;
                receipts = u.receipts;
                steps = omega (arith, used_is);
                tool_calls = u.tool_calls;
                backend_reads = u.backend_reads;
                citable = u.citable;
                sound = record {
                  attempt_numbers = cc (used_is, u.sound.attempt_numbers);
                  attempt_limit =
                      ground
                        (arith, e, ap InvestigationBudget.max_steps u.budget, in_range, used_is);
                  retained_ids = u.sound.retained_ids;
                };
              } in
              (t, w', rw (e, free, updated-ok t w' u') refl, refl, u')
        ]
      where
        used : ℕ
        used = max s.steps_used (length w.attempts)

        used_is : used ≡ length w.attempts
        used_is = omega (arith, u.steps)
