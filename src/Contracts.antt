-- ===== src/Contracts.antt =====
-- src/payops/contracts/__init__.py: the public records that tools, API and evaluation share, with
-- the validators that the source gives them. Pattern and length constraints of single text fields
-- are pydantic's. Scores are binary64 numbers that are not negative, held as their bit patterns,
-- whose numeric order is the order of the scores.
pub mod Citations
mod Tests
use pay_ops.Base.{
  ℕ, String, not, ◌||◌, Option, none, some, List, [], ◌∷◌, map, Eq, ◌==◌, ◌!=◌, discrete_eq,
  string_eq, any, contains, distinct, Time, ℕ_discrete, String_discrete,
}
use pay_ops.Base.Result.{Result, ok, value_error, raise_if, ◌>>◌}

pub data Source : Type 0 where
  kubernetes prometheus log trace deployment payment runbook memory : Source

unfoldable pub Source-discrete : Discrete Source
Source-discrete = hlevel

instance abbrev pub source_eq : Eq Source
source_eq = discrete_eq Source-discrete

pub data TerminalState : Type 0 where
  escalated resolved resolved_without_action security_block evidence_insufficient : TerminalState
  budget_exhausted dependency_unavailable action_failed unrecoverable : TerminalState

unfoldable pub TerminalState-discrete : Discrete TerminalState
TerminalState-discrete = hlevel

pub data RankingMethod : Type 0 where
  deterministic model_fixture model_provider : RankingMethod

unfoldable pub RankingMethod-discrete : Discrete RankingMethod
RankingMethod-discrete = hlevel

pub data ReportMode : Type 0 where
  mock fixture_replay local_kind cloud_gke : ReportMode

unfoldable pub ReportMode-discrete : Discrete ReportMode
ReportMode-discrete = hlevel

instance abbrev pub report_mode_eq : Eq ReportMode
report_mode_eq = discrete_eq ReportMode-discrete

pub data Severity : Type 0 where
  warning critical : Severity

pub record IncidentCreate : Type 0 where
  pub title : String
  pub namespace : String
  pub service : String
  pub severity : Severity

pub record EvidenceItem : Type 0 where
  pub evidence_id : String
  pub incident_id : String
  pub source : Source
  pub observed_at : Time
  pub collected_at : Time
  pub query : String
  pub resource : String
  pub artifact_uri : String
  pub artifact_sha256 : String
  pub summary : String

unfoldable pub EvidenceItem-discrete : Discrete EvidenceItem
EvidenceItem-discrete = hlevel (Source-discrete, String_discrete, ℕ_discrete)

instance abbrev pub evidence_item_eq : Eq EvidenceItem
evidence_item_eq = discrete_eq EvidenceItem-discrete

pub record RootCauseHypothesis : Type 0 where
  pub cause_code : String
  pub confidence : ℕ
  pub supporting_evidence_ids : List String
  pub refuting_evidence_ids : List String
  pub missing_evidence : List String

pub record IncidentReport : Type 0 where
  pub incident_id : String
  pub evidence : List EvidenceItem
  pub ranked_root_causes : List RootCauseHypothesis
  pub terminal_state : TerminalState
  pub mode : ReportMode
  pub duration_seconds : ℕ
  pub ranking_method : RankingMethod
  pub reasoning_stop_reason : Option String
  pub reasoning_receipts : List String
  pub trace_id : String

-- The body of the loop over the hypotheses in `validate_citations`.
unfoldable pub check_hypothesis : List String → RootCauseHypothesis → Result (Unit {0})
check_hypothesis ids h = do
  raise_if
      (any (λ i. not (contains i ids)) h.supporting_evidence_ids
        || any (λ i. not (contains i ids)) h.refuting_evidence_ids)
      value_error
  raise_if (any (λ i. contains i h.refuting_evidence_ids) h.supporting_evidence_ids) value_error

unfoldable pub check_hypotheses : List String → List RootCauseHypothesis → Result (Unit {0})
unfolding check_hypothesis
check_hypotheses ids [] = ok tt
check_hypotheses ids (h ∷ hs) = do check_hypothesis ids h; check_hypotheses ids hs

-- `IncidentReport.validate_citations`
unfoldable pub validate_citations : IncidentReport → Result (Unit {0})
unfolding check_hypotheses
validate_citations r = do
  let ids = map (λ (e : EvidenceItem). e.evidence_id) r.evidence
  raise_if (not (distinct ids)) value_error
  raise_if (any (λ (e : EvidenceItem). e.incident_id != r.incident_id) r.evidence) value_error
  let causes = map (λ (h : RootCauseHypothesis). h.cause_code) r.ranked_root_causes
  raise_if (not (distinct causes)) value_error
  check_hypotheses ids r.ranked_root_causes

pub record Incident : Type 0 where
  pub incident_id : String
  pub request : IncidentCreate
  pub created_at : Time
  pub report : Option IncidentReport

-- `Incident.validate_report_scope`
unfoldable pub validate_report_scope : Incident → Result (Unit {0})
validate_report_scope i = elim i.report [
  | none ↦ ok tt
  | some r ↦ raise_if (r.incident_id != i.incident_id) value_error
]

-- The validators that an `Incident` and the report in it go through when they are read.
abbrev pub report_valid : Option IncidentReport → Result (Unit {0})
report_valid none = ok tt
report_valid (some r) = validate_citations r

unfoldable pub incident_valid : Incident → Result (Unit {0})
incident_valid i = report_valid i.report >> validate_report_scope i
