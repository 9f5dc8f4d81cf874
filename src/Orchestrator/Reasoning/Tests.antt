-- ===== src/Orchestrator/Reasoning/Tests.antt =====
-- A final decision of src/payops/orchestrator/reasoning.py and what is published from it.
use pay_ops.Base.{String, ◌≡◌, ◌↔◌, refl, List, [], ◌∷◌, All}
use pay_ops.Base.Result.{ok}
use pay_ops.Contracts.{RootCauseHypothesis}
use pay_ops.Contracts.Citations.{IsGrounded}
use pay_ops.Orchestrator.Reasoning.{
  RankedCause, ReasoningDecision, DecisionKind, DecisionKind-discrete, Decoder, parse_decision,
  hypotheses,
}
use pay_ops.Orchestrator.Reasoning.Decisions.{IsAccepted, parse_decision_iff, hypotheses-IsGrounded}

abbrev leak : RankedCause
leak = record {
  cause_code = "memory_leak";
  confidence = 1;
  supporting_evidence_ids = "ev-1" ∷ [];
  refuting_evidence_ids = "ev-2" ∷ [];
  missing_evidence = [];
}

abbrev verdict : ReasoningDecision
verdict = record {
  decision = DecisionKind.finish;
  summary = "leak";
  reads = [];
  hypotheses = leak ∷ [];
}

abbrev decoder : Decoder
decoder = record { utf8_length = λ s. 100; decode = λ s. ok verdict }

abbrev evidence_ids : List String
evidence_ids = "ev-1" ∷ "ev-2" ∷ []

abbrev published : RootCauseHypothesis
published = record {
  cause_code = "memory_leak";
  confidence = 1;
  supporting_evidence_ids = "ev-1" ∷ [];
  refuting_evidence_ids = "ev-2" ∷ [];
  missing_evidence = [];
}

parse_decision_iff_example :
    (parse_decision decoder "{}" evidence_ids ("memory_leak" ∷ []) ≡ ok verdict)
    ↔ IsAccepted decoder "{}" evidence_ids ("memory_leak" ∷ []) verdict
parse_decision_iff_example =
    parse_decision_iff decoder "{}" evidence_ids ("memory_leak" ∷ []) verdict

verdict-parsed : parse_decision decoder "{}" evidence_ids ("memory_leak" ∷ []) ≡ ok verdict
unfolding parse_decision DecisionKind-discrete
verdict-parsed = refl

verdict-published : hypotheses (λ s. s) verdict ≡ ok (published ∷ [])
unfolding hypotheses DecisionKind-discrete
verdict-published = refl

hypotheses-IsGrounded_example : All (IsGrounded evidence_ids) (published ∷ [])
hypotheses-IsGrounded_example =
    hypotheses-IsGrounded (λ s. s) decoder "{}" evidence_ids ("memory_leak" ∷ []) verdict
      (published ∷ []) verdict-parsed verdict-published
