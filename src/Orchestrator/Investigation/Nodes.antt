-- ===== src/Orchestrator/Investigation/Nodes.antt =====
-- src/payops/orchestrator/nodes.py: the nodes of the investigation graph over the files of one incident's
-- directory. The operator's collector is a parameter, which writes artifacts; `batches` counts its calls.
-- The clock readings of a node are its `Moment`.
use pay_ops.Base.{
  ℕ, ◌+◌, String, Bool, ◌&&◌, Option, none, some, List, [], ◌∷◌, map, ltb, ◌==◌, ◌!=◌, string_eq,
  nat_eq, contains, if◌then◌else◌, Time,
}
use pay_ops.Base.Result.{Result, ok, err, Error, integrity, value_error, raise_if, ◌>>=◌, ◌>>◌}
use pay_ops.Contracts.{EvidenceItem, Incident, IncidentReport, TerminalState, validate_citations}
use pay_ops.Evidence.Verification.{Verifiers, as_integrity, verify_evidence}
use pay_ops.Orchestrator.Baseline.Signals.{Texts}
use pay_ops.Orchestrator.Baseline.Ranking.{rank_evidence}
use pay_ops.Orchestrator.Investigation.States.{
  Phase, instant_v1, payment_windows_v1, Collection, StepRecord, InvestigationState, updated,
}

-- The directory of one incident: the numbers of its attempt files, its dispatch marker, the retained
-- collection, and the artifacts.
pub record World (Artifacts Text : Type 0) : Type 0 where
  pub attempts : List ℕ
  pub dispatched : Bool
  pub retained : Option Text
  pub artifacts : Artifacts
  pub batches : ℕ

pub record Moment : Type 0 where
  pub now : Time
  pub observed_at : Time
  pub duration : ℕ
  pub trace_id : String

-- What trusted construction binds: the collector, the verification of artifacts, the optional
-- reasoner (`reason` with its factory), the names of exception classes, and float addition.
pub record NodeHost (Artifacts Text : Type 0) : Type 0 where
  pub collector : Incident → Artifacts → Result Collection × Artifacts
  pub verifiers : Artifacts → Verifiers
  pub texts : Texts
  pub reasoner : Option (InvestigationState → Artifacts → Result InvestigationState × Artifacts)
  pub class_name : Error → String
  pub total : List ℕ → ℕ

pub data Node : Type 0 where
  triage reserve collect rank finish : Node

abbrev pub node_name : Node → String
node_name triage = "triage"
node_name reserve = "reserve"
node_name collect = "collect"
node_name rank = "rank"
node_name finish = "finish"

-- `SERVICES` of src/payops/tools/kubernetes.py
abbrev pub known_services : List String
known_services =
    "payments-api" ∷ "risk-sim" ∷ "processor-adapter" ∷ "ledger-sim" ∷ "webhook-sim" ∷ []

abbrev pub with_terminal : InvestigationState → TerminalState → InvestigationState
with_terminal s t = record s { terminal = some t }

-- 34 payment or 30 instant backend reads.
abbrev pub required_reads : InvestigationState → ℕ
required_reads s = elim s.collection_profile [ payment_windows_v1 ↦ 34 | instant_v1 ↦ 30 ]

-- The operation of `triage`.
abbrev pub triage_scope : InvestigationState → Option TerminalState
triage_scope s =
    if s.incident.request.namespace == "payops-sandbox"
      && contains s.incident.request.service known_services
    then none
    else some TerminalState.security_block

unfoldable pub triage_state : InvestigationState → Result InvestigationState
triage_state s = updated (record s { phase = Phase.triaged; terminal = triage_scope s })

-- The operation of `reserve`.
unfoldable pub reserve_reads : InvestigationState → Result InvestigationState
reserve_reads s =
    let reserved = s.tool_calls_reserved + 20 in
    let backend = s.backend_reads_reserved + required_reads s in
    if ltb s.budget.max_tool_calls reserved
    then updated (with_terminal s TerminalState.budget_exhausted)
    else if ltb s.budget.max_backend_reads backend
    then updated (with_terminal s TerminalState.budget_exhausted)
    else updated (record s {
      phase = Phase.reads_reserved;
      tool_calls_reserved = reserved;
      backend_reads_reserved = backend;
    })

-- `verify_collected_item`
unfoldable pub verify_collected_item : Verifiers → EvidenceItem → Result (Unit {0})
verify_collected_item v item = as_integrity (verify_evidence v item)

abbrev pub verify_all : Verifiers → List EvidenceItem → Result (Unit {0})
verify_all v [] = ok tt
verify_all v (item ∷ items) = verify_collected_item v item >> verify_all v items

abbrev pub verify_own : Verifiers → String → List EvidenceItem → Result (Unit {0})
verify_own v id [] = ok tt
verify_own v id (item ∷ items) =
    raise_if (item.incident_id != id) integrity
    >> verify_collected_item v item
    >> verify_own v id items

-- `_collected`
unfoldable pub collected : Verifiers → InvestigationState → Collection → Result InvestigationState
collected v s c =
    raise_if (c.incident_id != s.incident.incident_id) integrity
    >> verify_own v s.incident.incident_id c.evidence
    >> updated (record s {
      phase = Phase.evidence_collected;
      evidence = c.evidence;
      failures = c.failures;
    })

-- The ranking by `rank_evidence`, and its terminal state.
unfoldable pub ranked_baseline : Texts → Verifiers → InvestigationState → Result InvestigationState
ranked_baseline texts v s = do
  hypotheses ← rank_evidence texts v.verify s.evidence
  updated (record s {
    phase = Phase.ranked;
    hypotheses = hypotheses;
    terminal = some (elim hypotheses [
      | [] ↦ TerminalState.evidence_insufficient
      | _ ∷ _ ↦ TerminalState.escalated
    ]);
  })

-- The report of `finish`.
abbrev pub final_report : (List ℕ → ℕ) → Moment → InvestigationState → IncidentReport
final_report total m s = record {
  incident_id = s.incident.incident_id;
  evidence = s.evidence;
  ranked_root_causes = s.hypotheses;
  terminal_state = elim s.terminal [ some t ↦ t | none ↦ TerminalState.unrecoverable ];
  mode = s.mode;
  duration_seconds = total (map (λ (r : StepRecord). r.duration_seconds) s.steps);
  ranking_method = s.ranking_method;
  reasoning_stop_reason = s.reasoning_stop_reason;
  reasoning_receipts = s.reasoning_receipts;
  trace_id = m.trace_id;
}

-- `finish`
unfoldable pub finish_state : (List ℕ → ℕ) → Moment → InvestigationState → Result InvestigationState
finish_state total m s = do
  let report = final_report total m s
  validate_citations report
  updated (record s { phase = Phase.finished; report = some report })

-- `route`
unfoldable pub route : InvestigationState → Result Node
route s = elim s.terminal [
  | some _ ↦ ok finish
  | none ↦ elim s.phase [
    | Phase.triaged ↦ ok reserve
    | Phase.reads_reserved ↦ ok collect
    | Phase.evidence_collected ↦ ok rank
    | _ ↦ err value_error
  ]
]
