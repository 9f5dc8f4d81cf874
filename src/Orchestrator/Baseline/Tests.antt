-- ===== src/Orchestrator/Baseline/Tests.antt =====
-- A diagnosis of src/payops/orchestrator/baseline.py: the processor has no replicas and no pods, and
-- requests fail.
use pay_ops.Base.{String, true, false, ◌≡◌, refl, none, some, List, [], ◌∷◌}
use pay_ops.Base.Result.{ok}
use pay_ops.Base.Json.{pos, integer, text, object, Members, empty, member}
use pay_ops.Contracts.{
  Source, Source-discrete, kubernetes, deployment, log, EvidenceItem, RootCauseHypothesis,
  IncidentReport, TerminalState, ReportMode, RankingMethod, validate_citations,
}
use pay_ops.Orchestrator.Baseline.Signals.{Texts}
use pay_ops.Orchestrator.Baseline.Ranking.{rank_evidence}
use pay_ops.Orchestrator.Baseline.Corroboration.{rank_evidence-valid}
use pay_ops.Remediation.Examples.{noon}

abbrev plain_texts : Texts
plain_texts = record {
  is_payment_pod = λ s. false;
  is_config_header = λ s. false;
  is_config_detail = λ s. false;
  is_access_failure = λ s. true;
  split_lines = λ s. s ∷ [];
  partition = λ s. some (s, s);
  aware_time = λ s. some noon;
  show_json = λ j. "";
}

abbrev observation : String → Source → String → String → EvidenceItem
observation id source resource query = record {
  evidence_id = id;
  incident_id = "inc-1";
  source = source;
  observed_at = noon;
  collected_at = noon;
  query = query;
  resource = resource;
  artifact_uri = "";
  artifact_sha256 = "";
  summary = "";
}

abbrev evidence : List EvidenceItem
evidence =
    observation "ev-1" deployment "processor-adapter" "spec"
    ∷ observation "ev-2" kubernetes "processor-adapter" "pods.count"
    ∷ observation "ev-3" log "payments-api" "logs"
    ∷ []

-- One payload serves the three items.
abbrev payload : Members
payload = member "kind" (text "Deployment") (
    member "replicas" (integer (pos 0))
      (member "pod_count" (integer (pos 0)) (member "lines" (text "POST /simulate 503") empty)))

abbrev diagnosis : RootCauseHypothesis
diagnosis = record {
  cause_code = "PROCESSOR_UNAVAILABLE";
  confidence = 4605831338911806259;
  supporting_evidence_ids = "ev-1" ∷ "ev-2" ∷ "ev-3" ∷ [];
  refuting_evidence_ids = [];
  missing_evidence = [];
}

abbrev report : IncidentReport
report = record {
  incident_id = "inc-1";
  evidence = evidence;
  ranked_root_causes = diagnosis ∷ [];
  terminal_state = TerminalState.escalated;
  mode = ReportMode.mock;
  duration_seconds = 1;
  ranking_method = RankingMethod.deterministic;
  reasoning_stop_reason = none;
  reasoning_receipts = [];
  trace_id = "t";
}

processor-diagnosed :
    rank_evidence plain_texts (λ item. ok (member "payload" (object payload) empty)) evidence
    ≡ ok (diagnosis ∷ [])
unfolding rank_evidence Source-discrete
processor-diagnosed = refl

rank_evidence-valid_example : validate_citations report ≡ ok tt
rank_evidence-valid_example =
    rank_evidence-valid plain_texts (λ item. ok (member "payload" (object payload) empty)) report
      (refl, (refl, (refl, tt))) processor-diagnosed
