-- ===== src/Orchestrator/Investigation/States.antt =====
-- src/payops/orchestrator/state.py: the state of an investigation, which is validated whenever it is
-- read or updated. Durations are bits of binary64 numbers.
use pay_ops.Base.{ℕ, String, Bool, ◌||◌, Option, none, some, List, length, ltb, Time}
use pay_ops.Base.Result.{Result, ok, err, value_error, raise_if, ◌>>=◌, ◌>>◌}
use pay_ops.Base.Table.{Codec}
use pay_ops.Contracts.{
  EvidenceItem, Incident, IncidentReport, RankingMethod, ReportMode, RootCauseHypothesis,
  TerminalState, incident_valid, report_valid,
}

pub data Phase : Type 0 where
  received triaged reads_reserved evidence_collected ranked finished : Phase

pub data CollectionProfile : Type 0 where
  instant_v1 payment_windows_v1 : CollectionProfile

-- `CollectionFailure` and `Collection` of src/payops/tools/collect.py.
pub record CollectionFailure : Type 0 where
  pub tool : String
  pub resource : String
  pub error_type : String

pub record Collection : Type 0 where
  pub incident_id : String
  pub evidence : List EvidenceItem
  pub failures : List CollectionFailure

pub record InvestigationBudget : Type 0 where
  pub max_steps : ℕ
  pub max_tool_calls : ℕ
  pub max_backend_reads : ℕ
  pub node_start_deadline : Time

pub record StepRecord : Type 0 where
  pub node : String
  pub observed_at : Time
  pub duration_seconds : ℕ

pub record InvestigationState : Type 0 where
  pub incident : Incident
  pub budget : InvestigationBudget
  pub mode : ReportMode
  pub collection_profile : CollectionProfile
  pub ranking_profile : String
  pub ranking_method : RankingMethod
  pub reasoning_stop_reason : Option String
  pub reasoning_receipts : List String
  pub phase : Phase
  pub started_at : Time
  pub steps_used : ℕ
  pub tool_calls_reserved : ℕ
  pub backend_reads_reserved : ℕ
  pub evidence : List EvidenceItem
  pub failures : List CollectionFailure
  pub hypotheses : List RootCauseHypothesis
  pub terminal : Option TerminalState
  pub steps : List StepRecord
  pub report : Option IncidentReport

-- The ranges that the fields declare.
abbrev pub budget_out_of_range : InvestigationBudget → Bool
budget_out_of_range b = ltb 16 b.max_steps || ltb 40 b.max_tool_calls || ltb 64 b.max_backend_reads

abbrev pub out_of_range : InvestigationState → Bool
out_of_range s =
    budget_out_of_range s.budget
    || ltb 20 (length s.reasoning_receipts)
    || ltb 16 s.steps_used
    || ltb 40 s.tool_calls_reserved
    || ltb 64 s.backend_reads_reserved

-- `InvestigationState.model_validate`
unfoldable pub state_valid : InvestigationState → Result (Unit {0})
state_valid s = do
  raise_if (out_of_range s) value_error
  incident_valid s.incident
  report_valid s.report

-- The validated result of `updated` of nodes.py.
unfoldable pub updated : InvestigationState → Result InvestigationState
unfolding state_valid
updated s = state_valid s >>= λ _. ok s

module _ {Text : Type 0} (codec : Codec InvestigationState Text) where
  unfoldable pub pack : InvestigationState → Text
  pack s = codec.write s

  abbrev pub unpack_read : Option InvestigationState → Result InvestigationState
  unpack_read none = err value_error
  unpack_read (some s) = updated s

  unfoldable pub unpack : Text → Result InvestigationState
  unfolding updated
  unpack value = unpack_read (codec.read value)
