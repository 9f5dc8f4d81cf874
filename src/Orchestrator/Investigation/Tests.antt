-- ===== src/Orchestrator/Investigation/Tests.antt =====
-- One investigation of src/payops/orchestrator/graph.py: a collector that finds a single observation, a
-- fresh directory, and the default budget.
use pay_ops.Base.{
  ℕ, ◌≤◌, true, false, ◌≡◌, ◌↔◌, refl, Option, none, some, List, [], ◌∷◌, length, arith, inl, inr,
  subst, Bool-cases, ◌==◌, string_eq, ◌⊎◌,
}
use pay_ops.Base.Result.{Result, ok, err, ok_inj}
use pay_ops.Base.Json.{empty}
use pay_ops.Base.Table.{Codec}
use pay_ops.Contracts.{
  EvidenceItem, Incident, Severity, RankingMethod, ReportMode, incident_valid,
  validate_report_scope, Source,
}
use pay_ops.Evidence.Verification.{Verifiers, verify_evidence, verify_source}
use pay_ops.Memory.Incidents.Equality.{incident_eq}
use pay_ops.Orchestrator.Baseline.Signals.{Texts}
use pay_ops.Orchestrator.Investigation.States.{
  Phase, Collection, CollectionProfile, InvestigationBudget, InvestigationState, unpack,
}
use pay_ops.Orchestrator.Investigation.Nodes.{
  triage_state, route, reserve_reads, collected, verify_collected_item, World, Moment, NodeHost,
  triage, collect,
}
use pay_ops.Orchestrator.Investigation.Steps.{mark_dispatched, collect_state}
use pay_ops.Orchestrator.Investigation.Walk.{run_node}
use pay_ops.Orchestrator.Investigation.Attempts.{
  Working, here, next, ran, lost_marked, batches-le-one, attempts-le-max_steps,
}
use pay_ops.Orchestrator.Investigation.Progress.{IsReliable, IsSound, Ids}
use pay_ops.Orchestrator.Investigation.Completion.{IsPaused, IsFinished}
use pay_ops.Orchestrator.Investigation.Worker.{Worker, initial_state, start}
use pay_ops.Orchestrator.Investigation.Lifecycle.{start-IsFinished, start_saved_iff, Matches}
use pay_ops.Remediation.Examples.{pod_status, noon}

-- Texts that are states or collections already.
data Stored : Type 0 where
  state_text : InvestigationState → Stored
  batch_text : Collection → Stored

abbrev read_state : Stored → Option InvestigationState
read_state (state_text s) = some s
read_state (batch_text c) = none

abbrev read_batch : Stored → Option Collection
read_batch (batch_text c) = some c
read_batch (state_text s) = none

abbrev states : Codec InvestigationState Stored
states = record { write = state_text; read = read_state; read-write = λ s. refl }

abbrev batches : Codec Collection Stored
batches = record { write = batch_text; read = read_batch; read-write = λ c. refl }

abbrev silent_texts : Texts
silent_texts = record {
  is_payment_pod = λ s. false;
  is_config_header = λ s. false;
  is_config_detail = λ s. false;
  is_access_failure = λ s. false;
  split_lines = λ s. s ∷ [];
  partition = λ s. none;
  aware_time = λ s. none;
  show_json = λ j. "";
}

abbrev accepting : Verifiers
accepting = record {
  verify = λ item. ok empty;
  verify_payment_window = λ item. ok tt;
  verify_trace_span = λ item. ok tt;
  verify_trace_log = λ item. ok tt;
  verify_retrieval = λ item. ok tt;
}

abbrev one_observation : Collection
one_observation = record { incident_id = "inc-1"; evidence = pod_status ∷ []; failures = [] }

abbrev host : NodeHost (Unit {0}) Stored
host = record {
  collector = λ i a. (ok one_observation, a);
  verifiers = λ a. accepting;
  texts = silent_texts;
  reasoner = none;
  class_name = λ e. "OSError";
  total = λ ds. 0;
}

abbrev incident : Incident
incident = record {
  incident_id = "inc-1";
  request = record {
    title = "t";
    namespace = "payops-sandbox";
    service = "payments-api";
    severity = Severity.critical;
  };
  created_at = noon;
  report = none;
}

abbrev budget : InvestigationBudget
budget = record {
  max_steps = 4;
  max_tool_calls = 20;
  max_backend_reads = 34;
  node_start_deadline = 2000000000000;
}

abbrev moment : ℕ → Moment
moment n = record { now = noon; observed_at = noon; duration = 0; trace_id = "t" }

abbrev fresh : World (Unit {0}) Stored
fresh = record { attempts = []; dispatched = false; retained = none; artifacts = tt; batches = 0 }

abbrev worker : Worker
worker = record {
  mode = ReportMode.local_kind;
  collection_profile = CollectionProfile.instant_v1;
  ranking_profile = "deterministic-v1";
  ranking_method = RankingMethod.deterministic;
  pause_before_ranking = false;
}

abbrev begun : InvestigationState
begun = initial_state worker incident budget noon

abbrev marked : World (Unit {0}) Stored
marked = record fresh { dispatched = true }

incident-valid : incident_valid incident ≡ ok tt
unfolding incident_valid validate_report_scope
incident-valid = refl

dispatched : mark_dispatched host batches fresh ≡ ok marked
unfolding mark_dispatched
dispatched = refl

source_accepted : (item : EvidenceItem) (s : Source) → verify_source accepting item s ≡ ok tt
source_accepted item Source.kubernetes = refl
source_accepted item Source.prometheus = refl
source_accepted item Source.log = elim (Bool-cases (item.query == "trace.console-log.v1")) [
  | inl e ↦ rw e refl
  | inr e ↦ rw e refl
]
source_accepted item Source.trace = refl
source_accepted item Source.deployment = refl
source_accepted item Source.payment = refl
source_accepted item Source.runbook = refl
source_accepted item Source.memory = refl

accepted : (item : EvidenceItem) → verify_evidence accepting item ≡ ok tt
unfolding verify_evidence
accepted item = rw (source_accepted item item.source) refl

reliable : IsReliable host batches
reliable = record {
  collector_errors = λ i a e h. absurd (cc);
  collector_ids = λ i a c h. subst (λ (x : Collection). Ids x.evidence) (ok_inj h) (λ x. x, tt);
  check_errors = λ a item e h. absurd (cc (h, accepted item));
}

fresh-IsSound : IsSound host batches fresh
fresh-IsSound = record {
  attempt_numbers = refl;
  attempt_limit = omega arith;
  retained_ids = λ text c h e. absurd (cc);
}

start-IsFinished_example :
    (s : InvestigationState) × (w' : World (Unit {0}) Stored) × (start host batches states moment
        worker none incident budget noon fresh
      ≡ (ok s, w'))
    × (IsFinished incident budget s
        ⊎ (worker.pause_before_ranking ≡ true) × IsPaused incident budget s)
start-IsFinished_example =
    start-IsFinished host batches states moment worker incident budget noon fresh incident-valid
      refl reliable refl fresh-IsSound

-- A first worker crashes after the dispatch marker; a second one collects with a state of its own.
after_crash : Working host batches 4 fresh (run_node host batches (moment 0) collect begun marked).1
after_crash =
    next (next here (lost_marked fresh marked dispatched))
      (ran marked (moment 0) collect begun (omega arith))

batches-le-one_example : (run_node host batches (moment 0) collect begun marked).1.batches ≤ 1
batches-le-one_example = batches-le-one host batches 4 fresh _ refl after_crash

attempts-le-max_steps_example :
    length (run_node host batches (moment 0) collect begun marked).1.attempts ≤ 4
attempts-le-max_steps_example =
    attempts-le-max_steps host batches 4 fresh _ (omega arith) after_crash

-- A second delivery finds the checkpoint of the first, before any node has run.
start_saved_iff_example :
    ((start host batches states moment worker
        (some (state_text begun, some triage))
        incident
        budget
        noon
        fresh).1
      ≡ fresh)
    × (((start host batches states moment worker
            (some (state_text begun, some triage))
            incident
            budget
            noon
            fresh).0
          ≡ ok begun)
        ↔ (unpack states (state_text begun) ≡ ok begun)
          × Matches host batches states moment worker begun
          × (begun.incident ≡ incident))
start_saved_iff_example =
    start_saved_iff host batches states moment worker (state_text begun) (some triage) incident
      budget noon fresh begun

abbrev inspector : Worker
inspector = record worker { pause_before_ranking = true }

abbrev gathered : Result InvestigationState → Option (Phase × List EvidenceItem)
gathered (ok s) = some (s.phase, s.evidence)
gathered (err e) = none

-- A worker that pauses returns the collected evidence before ranking.
paused_phase :
    gathered (start host batches states moment inspector none incident budget noon fresh).0
    ≡ some (Phase.evidence_collected, pod_status ∷ [])
unfolding start incident_valid validate_report_scope triage_state route reserve_reads collect_state
    collected verify_collected_item verify_evidence
paused_phase = refl
