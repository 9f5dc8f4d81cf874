-- ===== src/Memory/Incidents/Equality.antt =====
-- Equality of the incidents of src/payops/contracts/__init__.py, field by field.
use pay_ops.Base.{Eq, discrete_eq, String_discrete, ℕ_discrete, Option-discrete, List-discrete}
use pay_ops.Contracts.{
  IncidentReport, Incident, TerminalState-discrete, RankingMethod-discrete, ReportMode-discrete,
  RootCauseHypothesis, EvidenceItem-discrete,
}
use pay_ops.Memory.Incidents.{IncidentCreate-discrete}

unfoldable pub RootCauseHypothesis-discrete : Discrete RootCauseHypothesis
RootCauseHypothesis-discrete = hlevel (String_discrete, ℕ_discrete, List-discrete String_discrete)

unfoldable pub IncidentReport-discrete : Discrete IncidentReport
IncidentReport-discrete = hlevel (
  String_discrete,
  ℕ_discrete,
  EvidenceItem-discrete,
  RootCauseHypothesis-discrete,
  TerminalState-discrete,
  RankingMethod-discrete,
  ReportMode-discrete,
  Option-discrete String_discrete,
)

unfoldable pub Incident-discrete : Discrete Incident
Incident-discrete =
    hlevel (
      String_discrete,
      ℕ_discrete,
      IncidentCreate-discrete,
      Option-discrete IncidentReport-discrete,
    )

instance abbrev pub incident_eq : Eq Incident
incident_eq = discrete_eq Incident-discrete
