-- ===== src/Orchestrator/Baseline/Ranking.antt =====
-- `rank_evidence` of src/payops/orchestrator/baseline.py: causes whose predicates corroborate each
-- other. The scores are the bits of 0.95, 0.90, 0.85 and 0.75.
use pay_ops.Base.{
  ℕ, String, Bool, true, false, ◌&&◌, List, [], ◌∷◌, ◌++◌, map, ◌==◌, string_eq, any, if◌then◌else◌,
}
use pay_ops.Base.Result.{Result, ok, ◌>>=◌}
use pay_ops.Base.Json.{text, Members, lookup}
use pay_ops.Contracts.{EvidenceItem, RootCauseHypothesis}
use pay_ops.Orchestrator.Baseline.Signals.{Signal, Texts, verified}
use pay_ops.Orchestrator.Baseline.Predicates.{
  degraded, crashed, invalid_configuration, running_unready, readiness_event, processor_absent,
  no_processor_pods, log_lines,
}

abbrev pub select : (Signal → Bool) → List Signal → List Signal
select p [] = []
select p (s ∷ ss) = if p s then s ∷ select p ss else select p ss

-- `dict.fromkeys`: the first of equal ids.
abbrev pub without : String → List String → List String
without x [] = []
without x (y ∷ ys) = if y == x then without x ys else y ∷ without x ys

abbrev pub first_of_each : List String → List String
first_of_each [] = []
first_of_each (x ∷ xs) = x ∷ without x (first_of_each xs)

-- `_hypothesis`
abbrev pub hypothesis : String → ℕ → List Signal → RootCauseHypothesis
hypothesis code score signals = record {
  cause_code = code;
  confidence = score;
  supporting_evidence_ids = first_of_each (map (λ (s : Signal). s.item.evidence_id) signals);
  refuting_evidence_ids = [];
  missing_evidence = [];
}

abbrev pub some_of : List Signal → Bool
some_of [] = false
some_of (_ ∷ _) = true

abbrev pub when : Bool → RootCauseHypothesis → List RootCauseHypothesis → List RootCauseHypothesis
when b h rest = if b then h ∷ rest else rest

-- `str(signal.payload["resource_uid"])`, where it is a text.
abbrev pub resource_uids : List Signal → List String
resource_uids [] = []
resource_uids (s ∷ ss) = elim (lookup "resource_uid" s.payload) [
  | text uid ↦ uid ∷ resource_uids ss
  | _ ↦ resource_uids ss
]

-- The four rules, by the signals that each predicate has selected.
abbrev pub rules :
    (degraded crashes config unready probes absent empty errors : List Signal)
    → List RootCauseHypothesis
rules degraded crashes config unready probes absent empty errors =
    when (some_of degraded && some_of crashes && some_of config)
      (hypothesis "INVALID_CONFIGURATION" 4606732058837280358 (degraded ++ crashes ++ config))
      (when (some_of degraded && some_of unready && some_of probes)
        (hypothesis "READINESS_PROBE_FAILURE" 4606281698874543309 (degraded ++ unready ++ probes))
        (when (some_of absent && some_of empty && some_of errors)
          (hypothesis "PROCESSOR_UNAVAILABLE" 4605831338911806259 (absent ++ empty ++ errors))
          (when (some_of degraded && some_of crashes)
            (hypothesis "STARTUP_FAILURE" 4604930618986332160 (degraded ++ crashes)) [])))

abbrev pub rank_signals : Texts → List Signal → List RootCauseHypothesis
rank_signals texts signals =
    let unready = select (running_unready texts) signals in
    rules (select (degraded texts) signals) (select (crashed texts) signals)
      (select (invalid_configuration texts) signals) unready
      (select (readiness_event texts (resource_uids unready)) signals)
      (select (processor_absent texts) signals) (select (no_processor_pods texts) signals)
      (select (λ s. any texts.is_access_failure (log_lines texts s)) signals)

-- `rank_evidence`
unfoldable pub rank_evidence :
    Texts → (EvidenceItem → Result Members) → List EvidenceItem → Result (List RootCauseHypothesis)
unfolding verified
rank_evidence texts verify evidence =
    (verified verify evidence >>= λ signals. ok (rank_signals texts signals))
