-- ===== src/Orchestrator/Investigation/Worker.antt =====
-- `InvestigationWorker` of src/payops/orchestrator/graph.py: what a worker does with an incident, by the
-- checkpoint that it finds. A checkpoint is the last packed state and the node that is due, if any. A
-- call is one that has got the file lock, which lets one worker at a time in.
use pay_ops.Base.{
  ℕ, Bool, not, Option, none, some, [], Eq, discrete_eq, ◌==◌, ◌!=◌, bool_eq, if◌then◌else◌, String,
  string_eq, Time,
}
use pay_ops.Base.Result.{Result, ok, err, value_error, key_error, raise_if, ◌>>◌}
use pay_ops.Base.Action.{Exec}
use pay_ops.Base.Table.{Codec}
use pay_ops.Contracts.{
  Incident, ReportMode, report_mode_eq, RankingMethod, RankingMethod-discrete, deterministic,
}
use pay_ops.Orchestrator.Investigation.States.{
  Phase, Collection, CollectionProfile, InvestigationBudget, InvestigationState, pack, unpack,
}
use pay_ops.Orchestrator.Investigation.Nodes.{Moment, NodeHost, Node, triage}
use pay_ops.Orchestrator.Investigation.Steps.{Directory}
use pay_ops.Orchestrator.Investigation.Walk.{walk}

unfoldable pub Phase-discrete : Discrete Phase
Phase-discrete = hlevel

instance abbrev pub phase_eq : Eq Phase
phase_eq = discrete_eq Phase-discrete

unfoldable pub CollectionProfile-discrete : Discrete CollectionProfile
CollectionProfile-discrete = hlevel

instance abbrev pub collection_profile_eq : Eq CollectionProfile
collection_profile_eq = discrete_eq CollectionProfile-discrete

instance abbrev pub ranking_method_eq : Eq RankingMethod
ranking_method_eq = discrete_eq RankingMethod-discrete

pub record Worker : Type 0 where
  pub mode : ReportMode
  pub collection_profile : CollectionProfile
  pub ranking_profile : String
  pub ranking_method : RankingMethod
  pub pause_before_ranking : Bool

-- The guards of `__init__`, where the flag says whether a reasoner is bound.
unfoldable pub worker_valid : Bool → Worker → Result (Unit {0})
worker_valid reasoner k = do
  raise_if (not reasoner != (k.ranking_profile == "deterministic-v1")) value_error
  raise_if (not reasoner != (k.ranking_method == deterministic)) value_error

-- The state that `start` builds.
abbrev pub initial_state : Worker → Incident → InvestigationBudget → Time → InvestigationState
initial_state k incident budget now = record {
  incident = incident;
  budget = budget;
  mode = k.mode;
  collection_profile = k.collection_profile;
  ranking_profile = k.ranking_profile;
  ranking_method = k.ranking_method;
  reasoning_stop_reason = none;
  reasoning_receipts = [];
  phase = Phase.received;
  started_at = now;
  steps_used = 0;
  tool_calls_reserved = 0;
  backend_reads_reserved = 0;
  evidence = [];
  failures = [];
  hypotheses = [];
  terminal = none;
  steps = [];
  report = none;
}

-- Whether the saved investigation is the one that this worker is set up for.
unfoldable pub same_settings : Worker → InvestigationState → Result (Unit {0})
same_settings k s = do
  raise_if (s.mode != k.mode) value_error
  raise_if (s.collection_profile != k.collection_profile) value_error
  raise_if (s.ranking_profile != k.ranking_profile) value_error
  raise_if (s.ranking_method != k.ranking_method) value_error

module _ {Artifacts Text : Type 0} ⦃incident_eq : Eq Incident⦄ (host : NodeHost Artifacts Text)
    (batch : Codec Collection Text) (codec : Codec InvestigationState Text)
    (clock : ℕ → Moment) where
  -- `unpack` of what the graph returned.
  abbrev pub unpacked :
      Result Text × Directory host batch → Result InvestigationState × Directory host batch
  unpacked (ok value, w) = (unpack codec value, w)
  unpacked (err e, w) = (err e, w)

  -- `graph.invoke` with the recursion limit 16.
  abbrev pub graph_invoke : Bool → Node → Text → Exec (Directory host batch) InvestigationState
  graph_invoke pause node value w = unpacked (walk host batch codec clock pause 16 node value w)

  abbrev pub resume_from :
      Bool
      → InvestigationState
      → Text
      → Option Node
      → Exec (Directory host batch) InvestigationState
  resume_from pause s value none w = (ok s, w)
  resume_from pause s value (some node) w =
      if s.phase == Phase.finished then (ok s, w) else graph_invoke pause node value w

  -- `_invoke` on a saved investigation.
  abbrev pub invoke_saved :
      Bool
      → InvestigationState
      → Text
      → Option Node
      → Option InvestigationState
      → Exec (Directory host batch) InvestigationState
  invoke_saved pause s value due (some initial) w =
      (raise_if (s.incident != initial.incident) value_error >> ok s, w)
  invoke_saved pause s value due none w = resume_from pause s value due w

  abbrev pub invoke_checked :
      Bool
      → Result (Unit {0})
      → InvestigationState
      → Text
      → Option Node
      → Option InvestigationState
      → Exec (Directory host batch) InvestigationState
  invoke_checked pause (err e) s value due initial w = (err e, w)
  invoke_checked pause (ok _) s value due initial w = invoke_saved pause s value due initial w

  abbrev pub invoke_read :
      Worker
      → Result InvestigationState
      → Text
      → Option Node
      → Option InvestigationState
      → Exec (Directory host batch) InvestigationState
  invoke_read k (err e) value due initial w = (err e, w)
  invoke_read k (ok s) value due initial w =
      invoke_checked k.pause_before_ranking (same_settings k s) s value due initial w

  -- `_invoke`
  unfoldable pub invoke :
      Worker
      → Option (Text × Option Node)
      → Option InvestigationState
      → Exec (Directory host batch) InvestigationState
  unfolding unpack same_settings walk
  invoke k (some (value, due)) initial w = invoke_read k (unpack codec value) value due initial w
  invoke k none none w = (err key_error, w)
  invoke k none (some initial) w = graph_invoke k.pause_before_ranking triage (pack codec initial) w

  -- `start`
  unfoldable pub start :
      Worker
      → Option (Text × Option Node)
      → Incident
      → InvestigationBudget
      → Time
      → Exec (Directory host batch) InvestigationState
  unfolding invoke
  start k saved incident budget now w =
      invoke k saved (some (initial_state k incident budget now)) w

  -- `resume`
  unfoldable pub resume :
      Worker → Option (Text × Option Node) → Exec (Directory host batch) InvestigationState
  unfolding invoke
  resume k saved w = invoke k saved none w
