-- ===== src/Policy/Authority/Evidence.antt =====
-- `operational_evidence` and `evidence_failure` of src/payops/policy/engine.py against their
-- statements.
use pay_ops.Base.{
  String, true, ◌≡◌, ◌≢◌, ◌↔◌, Option, none, some, List, [], ◌∷◌, refl, arith, All, Time, string_eq,
  Bool-cases, inl, inr,
}
use pay_ops.Base.Result.{Result, ok, err}
use pay_ops.Contracts.{
  Source, log, trace, payment, runbook, memory, EvidenceItem, IncidentReport, escalated,
  report_mode_eq, source_eq, Source-discrete, TerminalState,
}
use pay_ops.Policy.Records.{Action}
use pay_ops.Policy.{
  PolicyContext, EvidenceStore, complete, console_log_query, operational_evidence, item_failure,
  evidence_by_id, unless_failed, cited_failure, citation_failure, report_failure, evidence_failure,
  report_mode, catch_evidence_error, is_evidence_error, is_escalated,
}
use pay_ops.Policy.Authority.Scope.{IsFresh}

-- Which items may support a change, by their source: payment evidence needs a complete verified
-- window, retrieved guidance and traces never serve, and all else must be verified.
abbrev pub IsOperational : Source → EvidenceItem → EvidenceStore → Type 0
IsOperational payment item store = store.verify_payment_window item ≡ ok complete
IsOperational runbook item store = ⊥
IsOperational memory item store = ⊥
IsOperational trace item store = ⊥
IsOperational log item store = (item.query ≢ console_log_query) × (store.verify item ≡ ok tt)
IsOperational _ item store = store.verify item ≡ ok tt

operational_evidence_iff :
    (source : Source) (item : EvidenceItem) (store : EvidenceStore)
    → item.source ≡ source
    → (operational_evidence item store ≡ ok none) ↔ IsOperational source item store
unfolding operational_evidence Source-discrete
operational_evidence_iff payment item store e = rw e (ground arith)
operational_evidence_iff log item store e =
    rw e (ground (arith, string_eq.beq_iff item.query console_log_query))
operational_evidence_iff _ item store e = rw e (ground arith)

pub record Supports (a : Action) (store : EvidenceStore) (now : Time) (item : EvidenceItem)
    : Type 0 where
  pub same_incident : item.incident_id ≡ a.incident_id
  pub observed : IsFresh 300 now item.observed_at
  pub collected : IsFresh 300 now item.collected_at
  pub operational : IsOperational item.source item store

pub item_failure_iff :
    (a : Action) (store : EvidenceStore) (now : Time) (item : EvidenceItem)
    → (item_failure a store now item ≡ ok none) ↔ Supports a store now item
unfolding item_failure
item_failure_iff a store now item = ground (
  arith,
  string_eq.beq_iff item.incident_id a.incident_id,
  operational_evidence_iff item.source item store refl,
)

-- A citation that resolves to an item which supports the action.
abbrev pub CitesSupport : Action → EvidenceStore → Time → Option EvidenceItem → Type 0
CitesSupport a store now none = ⊥
CitesSupport a store now (some item) = Supports a store now item

-- Citation `i` resolves, by the last item of that name, to such an item.
abbrev pub IsSupported : Action → EvidenceStore → Time → List EvidenceItem → String → Type 0
IsSupported a store now items i = CitesSupport a store now (evidence_by_id i items)

unless_failed-eq-none :
    (r rest : Result (Option String))
    → (unless_failed r rest ≡ ok none) ↔ ((r ≡ ok none) × (rest ≡ ok none))
unless_failed-eq-none (ok none) rest = (λ h. (refl, h), λ h. h.1)
unless_failed-eq-none (ok (some reason)) rest = (λ h. absurd (cc), λ h. absurd (cc))
unless_failed-eq-none (err e) rest = (λ h. absurd (cc), λ h. absurd (cc))

cited_failure_iff :
    (a : Action) (store : EvidenceStore) (now : Time) (o : Option EvidenceItem)
    (rest : Result (Option String))
    → (cited_failure a store now o rest ≡ ok none) ↔ (CitesSupport a store now o × (rest ≡ ok none))
unfolding cited_failure
cited_failure_iff a store now none rest = (λ h. absurd (cc), λ h. absurd h.0)
cited_failure_iff a store now (some item) rest =
    let step = unless_failed-eq-none (item_failure a store now item) rest in
    let here = item_failure_iff a store now item in
    (λ h. (here.0 (step.0 h).0, (step.0 h).1), λ h. step.1 (here.1 h.0, h.1))

pub citation_failure_iff :
    (a : Action) (store : EvidenceStore) (now : Time) (items : List EvidenceItem)
    (ids : List String)
    → (citation_failure a store now items ids ≡ ok none) ↔ All (IsSupported a store now items) ids
unfolding citation_failure
citation_failure_iff a store now items [] = (λ _. tt, λ _. refl)
citation_failure_iff a store now items (i ∷ ids) =
    let ih = citation_failure_iff a store now items ids in
    let step =
      cited_failure_iff a store now (evidence_by_id i items)
        (citation_failure a store now items ids) in
    (λ h. ((step.0 h).0, ih.0 (step.0 h).1), λ h. step.1 (h.0, ih.1 h.1))

-- The report of the incident is escalated, made in the resource's mode, and holds support for
-- every citation.
pub record IsActionable (a : Action) (c : PolicyContext) (now : Time) (report : IncidentReport)
    : Type 0 where
  pub escalated : report.terminal_state ≡ escalated
  pub same_mode : report.mode ≡ report_mode c.resource.mode
  pub supported : All (IsSupported a c.store now report.evidence) a.evidence_ids

catch-eq-none : (r : Result (Option String)) → (catch_evidence_error r ≡ ok none) ↔ (r ≡ ok none)
catch-eq-none (ok failure) = (λ h. h, λ h. h)
catch-eq-none (err e) = elim (Bool-cases (is_evidence_error e)) [
  | inl caught ↦ rw caught (λ h. absurd (cc), λ h. absurd (cc))
  | inr passed ↦ rw passed (λ h. absurd (cc), λ h. absurd (cc))
]

is_escalated_iff : (t : TerminalState) → (is_escalated t ≡ true) ↔ (t ≡ escalated)
is_escalated_iff t = ground arith

abbrev pub HasActionableReport : Action → PolicyContext → Time → Option IncidentReport → Type 0
HasActionableReport a c now none = ⊥
HasActionableReport a c now (some report) = IsActionable a c now report

report_failure_iff :
    (a : Action) (c : PolicyContext) (now : Time) (o : Option IncidentReport)
    → (report_failure a c now o ≡ ok none) ↔ HasActionableReport a c now o
unfolding report_failure
report_failure_iff a c now none = (λ h. absurd (cc), λ h. absurd h)
report_failure_iff a c now (some report) = ground (
  arith,
  is_escalated_iff report.terminal_state,
  report_mode_eq.beq_iff report.mode (report_mode c.resource.mode),
  catch-eq-none (citation_failure a c.store now report.evidence a.evidence_ids),
  citation_failure_iff a c.store now report.evidence a.evidence_ids,
)

pub evidence_failure_iff :
    (a : Action) (c : PolicyContext) (now : Time)
    → (evidence_failure a c now ≡ ok none) ↔ HasActionableReport a c now c.incident.report
unfolding evidence_failure
evidence_failure_iff a c now = report_failure_iff a c now c.incident.report
