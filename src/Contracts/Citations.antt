-- ===== src/Contracts/Citations.antt =====
-- `IncidentReport.validate_citations` of src/payops/contracts/__init__.py against its statement.
use pay_ops.Base.{
  String, ◌≡◌, ◌↔◌, not, ◌||◌, ◌!=◌, List, [], ◌∷◌, map, In, All, IsDistinct, any, contains,
  contains_iff, distinct_iff, string_eq, arith, any-eq-false, All-map_iff, iff_trans, not-eq-false,
  or-eq-false, ne-eq-false, false,
}
use pay_ops.Base.Result.{ok, value_error, raise_if-then, raise_if-eq-ok, >>-eq-ok, raise_if}
use pay_ops.Contracts.{
  EvidenceItem, RootCauseHypothesis, IncidentReport, check_hypothesis, check_hypotheses,
  validate_citations,
}

-- Every citation of the hypothesis is one of `ids`, and none both supports and refutes.
pub record IsGrounded (ids : List String) (h : RootCauseHypothesis) : Type 0 where
  pub supports : All (λ i. In i ids) h.supporting_evidence_ids
  pub refutes : All (λ i. In i ids) h.refuting_evidence_ids
  pub disjoint : All (λ i. ¬ In i h.refuting_evidence_ids) h.supporting_evidence_ids

pub record IsConsistent (r : IncidentReport) : Type 0 where
  pub distinct_evidence : IsDistinct (map (λ (e : EvidenceItem). e.evidence_id) r.evidence)
  pub own_evidence : All (λ (e : EvidenceItem). e.incident_id ≡ r.incident_id) r.evidence
  pub distinct_causes :
      IsDistinct (map (λ (h : RootCauseHypothesis). h.cause_code) r.ranked_root_causes)
  pub grounded :
      All (IsGrounded (map (λ (e : EvidenceItem). e.evidence_id) r.evidence)) r.ranked_root_causes

cited_iff :
    (ids xs : List String) → (any (λ i. not (contains i ids)) xs ≡ false) ↔ All (λ i. In i ids) xs
cited_iff ids xs =
    iff_trans (any-eq-false _ xs)
      (All-map_iff xs (λ i. iff_trans (not-eq-false (contains i ids)) (contains_iff i ids)))

disjoint_iff :
    (ids xs : List String) → (any (λ i. contains i ids) xs ≡ false) ↔ All (λ i. ¬ In i ids) xs
disjoint_iff ids xs =
    iff_trans (any-eq-false _ xs) (All-map_iff xs (λ i. ground (arith, contains_iff i ids)))

check_hypothesis_iff :
    (ids : List String) (h : RootCauseHypothesis)
    → (check_hypothesis ids h ≡ ok tt) ↔ IsGrounded ids h
unfolding check_hypothesis
check_hypothesis_iff ids h =
    let supports = cited_iff ids h.supporting_evidence_ids in
    let refutes = cited_iff ids h.refuting_evidence_ids in
    let apart = disjoint_iff h.refuting_evidence_ids h.supporting_evidence_ids in
    let first =
      raise_if-then
        (any (λ i. not (contains i ids)) h.supporting_evidence_ids
          || any (λ i. not (contains i ids)) h.refuting_evidence_ids)
        value_error
        (raise_if (any (λ i. contains i h.refuting_evidence_ids) h.supporting_evidence_ids)
          value_error) in
    let second =
      raise_if-eq-ok (any (λ i. contains i h.refuting_evidence_ids) h.supporting_evidence_ids)
        value_error in
    (
      λ e.
          let (cited, rest) = first.0 e in
          let (s, r) = (or-eq-false _ _).0 cited in
          record {
            supports = supports.0 s;
            refutes = refutes.0 r;
            disjoint = apart.0 (second.0 rest);
          },
      λ g. first.1 (
        (or-eq-false _ _).1 (supports.1 g.supports, refutes.1 g.refutes),
        second.1 (apart.1 g.disjoint),
      ),
    )

check_hypotheses_iff :
    (ids : List String) (hs : List RootCauseHypothesis)
    → (check_hypotheses ids hs ≡ ok tt) ↔ All (IsGrounded ids) hs
unfolding check_hypotheses
check_hypotheses_iff ids [] = (λ _. tt, λ _. cc)
check_hypotheses_iff ids (h ∷ hs) =
    let both = >>-eq-ok (check_hypothesis ids h) (check_hypotheses ids hs) in
    let here = check_hypothesis_iff ids h in
    let ih = check_hypotheses_iff ids hs in
    (λ e. (here.0 (both.0 e).0, ih.0 (both.0 e).1), λ g. both.1 (here.1 g.0, ih.1 g.1))

-- The validator accepts a report exactly when its evidence has distinct names and belongs to the
-- report's incident, its causes are distinct, and every hypothesis is grounded in that evidence.
pub validate_citations_iff : (r : IncidentReport) → (validate_citations r ≡ ok tt) ↔ IsConsistent r
unfolding validate_citations
validate_citations_iff r =
    let ids = map (λ (e : EvidenceItem). e.evidence_id) r.evidence in
    let names = distinct_iff ids in
    let causes =
      distinct_iff (map (λ (h : RootCauseHypothesis). h.cause_code) r.ranked_root_causes) in
    let own =
      iff_trans (any-eq-false (λ (e : EvidenceItem). e.incident_id != r.incident_id) r.evidence)
        (All-map_iff r.evidence (λ e. ne-eq-false e.incident_id r.incident_id)) in
    let grounded = check_hypotheses_iff ids r.ranked_root_causes in
    (
      λ e.
          let (a, k) = (raise_if-then _ _ _).0 e in
          let (b, l) = (raise_if-then _ _ _).0 k in
          let (c, m) = (raise_if-then _ _ _).0 l in
          record {
            distinct_evidence = names.0 ((not-eq-false _).0 a);
            own_evidence = own.0 b;
            distinct_causes = causes.0 ((not-eq-false _).0 c);
            grounded = grounded.0 m;
          },
      λ s. (raise_if-then _ _ _).1 (
        (not-eq-false _).1 (names.1 s.distinct_evidence),
        (raise_if-then _ _ _).1 (
          own.1 s.own_evidence,
          (raise_if-then _ _ _).1
              ((not-eq-false _).1 (causes.1 s.distinct_causes), grounded.1 s.grounded),
        ),
      ),
    )
