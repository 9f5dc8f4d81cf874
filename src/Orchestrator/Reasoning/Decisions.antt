-- ===== src/Orchestrator/Reasoning/Decisions.antt =====
-- What src/payops/orchestrator/reasoning.py accepts as a model's decision, stated without its tests.
use pay_ops.Base.{
  is_some, ◌≤◌, String, Bool, true, false, not, ◌&&◌, ◌||◌, ◌≡◌, ◌↔◌, refl, subst, List, [], ◌∷◌,
  map, ◌==◌, ◌!=◌, string_eq, nat_eq, bool_eq, ltb, any, all, contains, In, All, IsDistinct,
  contains_iff, distinct_iff, any-eq-false, All-map_iff, all-eq-true, not-eq-false, ne-eq-false,
  iff_trans, arith, if◌then◌else◌,
}
use pay_ops.Base.Result.{
  Result, ok, err, value_error, raise_if, raise_if-then, raise_if-eq-ok, >>-eq-ok, >>=-eq-ok,
  ok_inj, ◌>>=◌, ◌>>◌,
}
use pay_ops.Contracts.{RootCauseHypothesis}
use pay_ops.Contracts.Citations.{IsGrounded}
use pay_ops.Orchestrator.Reasoning.{
  ReadRequest, read_request_eq, RankedCause, ReasoningDecision, DecisionKind, decision_kind_eq,
  is_retrieval, nonempty, query_scope, query_scopes, coherent, resolve_cause, resolve_causes,
  Decoder, accept_decision, parse_decision, public_hypothesis, public_hypotheses, hypotheses,
}

-- Search text is given exactly to the two retrieval tools.
abbrev pub IsScoped : ReadRequest → Type 0
IsScoped r = is_retrieval r.tool ≡ is_some r.query

-- A decision to read asks for reads, and no other does; only a final one has hypotheses; requests
-- and causes are distinct.
pub record IsCoherent (d : ReasoningDecision) : Type 0 where
  pub scoped : All IsScoped d.reads
  pub reads : (d.decision ≡ DecisionKind.read) ↔ (nonempty d.reads ≡ true)
  pub final : nonempty d.hypotheses ≡ true → d.decision ≡ DecisionKind.finish
  pub distinct_reads : IsDistinct d.reads
  pub distinct_causes : IsDistinct (map (λ (c : RankedCause). c.cause_code) d.hypotheses)

-- A cause of the closed list, whose citations are submitted evidence, once each and on one side.
pub record IsResolved (evidence_ids cause_codes : List String) (c : RankedCause) : Type 0 where
  pub cause : In c.cause_code cause_codes
  pub supports : All (λ i. In i evidence_ids) c.supporting_evidence_ids
  pub refutes : All (λ i. In i evidence_ids) c.refuting_evidence_ids
  pub disjoint : All (λ i. ¬ In i c.refuting_evidence_ids) c.supporting_evidence_ids
  pub distinct_supports : IsDistinct c.supporting_evidence_ids
  pub distinct_refutes : IsDistinct c.refuting_evidence_ids

query_scopes_iff : (rs : List ReadRequest) → (query_scopes rs ≡ ok tt) ↔ All IsScoped rs
unfolding query_scopes
query_scopes_iff [] = (λ _. tt, λ _. refl)
query_scopes_iff (r ∷ rs) =
    let both = >>-eq-ok (query_scope r) (query_scopes rs) in
    let here =
      iff_trans (raise_if-eq-ok _ value_error)
        (ne-eq-false (is_retrieval r.tool) (is_some r.query)) in
    let ih = query_scopes_iff rs in
    (λ e. (here.0 (both.0 e).0, ih.0 (both.0 e).1), λ g. both.1 (here.1 g.0, ih.1 g.1))

reads_iff :
    (k : DecisionKind) (b : Bool)
    → (((k == DecisionKind.read) != b) ≡ false) ↔ ((k ≡ DecisionKind.read) ↔ (b ≡ true))
reads_iff k b = ground (arith, decision_kind_eq.beq_iff k DecisionKind.read)

final_iff :
    (k : DecisionKind) (b : Bool)
    → ((k != DecisionKind.finish && b) ≡ false) ↔ (b ≡ true → k ≡ DecisionKind.finish)
final_iff k b = ground (arith, decision_kind_eq.beq_iff k DecisionKind.finish)

coherent_iff : (d : ReasoningDecision) → (coherent d ≡ ok tt) ↔ IsCoherent d
unfolding coherent
coherent_iff d = (
  λ e.
      let (s, e) = (>>-eq-ok _ _).0 e in
      let (r, e) = (raise_if-then _ _ _).0 e in
      let (f, e) = (raise_if-then _ _ _).0 e in
      let (n, e) = (raise_if-then _ _ _).0 e in
      record {
        scoped = (query_scopes_iff d.reads).0 s;
        reads = (reads_iff d.decision (nonempty d.reads)).0 r;
        final = (final_iff d.decision (nonempty d.hypotheses)).0 f;
        distinct_reads = (distinct_iff d.reads).0 ((not-eq-false _).0 n);
        distinct_causes = (distinct_iff _).0 ((not-eq-false _).0 ((raise_if-eq-ok _ _).0 e));
      },
  λ c. (>>-eq-ok _ _).1 (
    (query_scopes_iff d.reads).1 c.scoped,
    (raise_if-then _ _ _).1 (
      (reads_iff d.decision (nonempty d.reads)).1 c.reads,
      (raise_if-then _ _ _).1 (
        (final_iff d.decision (nonempty d.hypotheses)).1 c.final,
        (raise_if-then _ _ _).1 (
          (not-eq-false _).1 ((distinct_iff d.reads).1 c.distinct_reads),
          (raise_if-eq-ok _ _).1 ((not-eq-false _).1 ((distinct_iff _).1 c.distinct_causes)),
        ),
      ),
    ),
  ),
)

cited_iff : (ids xs : List String) → (all (λ i. contains i ids) xs ≡ true) ↔ All (λ i. In i ids) xs
cited_iff ids xs = iff_trans (all-eq-true _ xs) (All-map_iff xs (λ i. contains_iff i ids))

disjoint_iff :
    (ids xs : List String) → (any (λ i. contains i ids) xs ≡ false) ↔ All (λ i. ¬ In i ids) xs
disjoint_iff ids xs =
    iff_trans (any-eq-false _ xs) (All-map_iff xs (λ i. ground (arith, contains_iff i ids)))

-- The first test of the loop, by the facts that its three parts decide.
unresolved_iff :
    (a b c : Bool) → ((not a || not (b && c)) ≡ false) ↔ ((a ≡ true) × (b ≡ true) × (c ≡ true))
unresolved_iff a b c = ground arith

conflicting_iff :
    (a b c : Bool) → ((a || not b || not c) ≡ false) ↔ ((a ≡ false) × (b ≡ true) × (c ≡ true))
conflicting_iff a b c = ground arith

resolve_cause_iff :
    (ids codes : List String) (c : RankedCause)
    → (resolve_cause ids codes c ≡ ok tt) ↔ IsResolved ids codes c
unfolding resolve_cause
resolve_cause_iff ids codes c = (
  λ e.
      let (u, e) = (raise_if-then _ _ _).0 e in
      let (cause, s, r) = (unresolved_iff _ _ _).0 u in
      let (d, ds, dr) = (conflicting_iff _ _ _).0 ((raise_if-eq-ok _ _).0 e) in
      record {
        cause = (contains_iff _ codes).0 cause;
        supports = (cited_iff ids _).0 s;
        refutes = (cited_iff ids _).0 r;
        disjoint = (disjoint_iff _ _).0 d;
        distinct_supports = (distinct_iff _).0 ds;
        distinct_refutes = (distinct_iff _).0 dr;
      },
  λ h. (raise_if-then _ _ _).1 (
    (unresolved_iff _ _ _).1 (
      (contains_iff _ codes).1 h.cause,
      (cited_iff ids _).1 h.supports,
      (cited_iff ids _).1 h.refutes,
    ),
    (raise_if-eq-ok _ _).1 (
        (conflicting_iff _ _ _).1 (
          (disjoint_iff _ _).1 h.disjoint,
          (distinct_iff _).1 h.distinct_supports,
          (distinct_iff _).1 h.distinct_refutes,
        )),
  ),
)

resolve_causes_iff :
    (ids codes : List String) (cs : List RankedCause)
    → (resolve_causes ids codes cs ≡ ok tt) ↔ All (IsResolved ids codes) cs
resolve_causes_iff ids codes [] = (λ _. tt, λ _. refl)
resolve_causes_iff ids codes (c ∷ cs) =
    let both = >>-eq-ok (resolve_cause ids codes c) (resolve_causes ids codes cs) in
    let here = resolve_cause_iff ids codes c in
    let ih = resolve_causes_iff ids codes cs in
    (λ e. (here.0 (both.0 e).0, ih.0 (both.0 e).1), λ g. both.1 (here.1 g.0, ih.1 g.1))

-- What an accepted decision satisfies.
pub record IsAccepted (decoder : Decoder) (content : String) (ids codes : List String)
    (d : ReasoningDecision) : Type 0 where
  pub bounded : decoder.utf8_length content ≤ 16384
  pub decoded : decoder.decode content ≡ ok d
  pub coherence : IsCoherent d
  pub resolved : All (IsResolved ids codes) d.hypotheses

raise_if->>=-ok {ℓ} :
    {B : Type ℓ} (m : Result (Unit {0})) (k : Result B) {b : B}
    → ((m >> k) ≡ ok b) ↔ ((m ≡ ok tt) × (k ≡ ok b))
raise_if->>=-ok (ok tt) k = (λ h. (refl, h), λ h. h.1)
raise_if->>=-ok (err e) k = (λ h. absurd (cc), λ h. absurd (cc))

-- `parse_decision` returns a decision exactly when the text is at most 16384 bytes long, decodes to
-- that decision, and the decision is coherent and resolves all its causes and citations.
pub parse_decision_iff :
    (decoder : Decoder) (content : String) (ids codes : List String) (d : ReasoningDecision)
    → (parse_decision decoder content ids codes ≡ ok d) ↔ IsAccepted decoder content ids codes d
unfolding parse_decision
parse_decision_iff decoder content ids codes d = (
  λ e.
      let (short, e) =
        (raise_if->>=-ok (raise_if (ltb 16384 (decoder.utf8_length content)) value_error) _).0 e in
      let (x, decoded, e) = >>=-eq-ok (decoder.decode content) (accept_decision ids codes) e in
      let (c, e) = (raise_if->>=-ok _ _).0 e in
      let (r, e) = (raise_if->>=-ok _ _).0 e in
      let same : x ≡ d = ok_inj e in
      subst (IsAccepted decoder content ids codes) same (record {
        bounded = ground (arith, short);
        decoded = decoded;
        coherence = (coherent_iff x).0 c;
        resolved = (resolve_causes_iff ids codes x.hypotheses).0 r;
      }),
  λ h.
      (raise_if->>=-ok (raise_if (ltb 16384 (decoder.utf8_length content)) value_error)
          (decoder.decode content >>= accept_decision ids codes)).1
        (
          ground (arith, h.bounded),
          rw h.decoded (
              (raise_if->>=-ok _ _).1 (
                (coherent_iff d).1 h.coherence,
                (raise_if->>=-ok _ _).1
                    ((resolve_causes_iff ids codes d.hypotheses).1 h.resolved, refl),
              )),
        ),
)

public_hypothesis-IsGrounded :
    (strip : String → String) (ids codes : List String) (c : RankedCause) (h : RootCauseHypothesis)
    → IsResolved ids codes c
    → public_hypothesis strip c ≡ ok h
    → IsGrounded ids h
public_hypothesis-IsGrounded strip ids codes c h r e =
    go (contains "" (map strip c.missing_evidence)) e
  where
    go :
        (b : Bool)
        → ◌≡◌ {A = Result RootCauseHypothesis}
            (if b
              then err value_error
              else ok (record {
                cause_code = c.cause_code;
                confidence = c.confidence;
                supporting_evidence_ids = c.supporting_evidence_ids;
                refuting_evidence_ids = c.refuting_evidence_ids;
                missing_evidence = map strip c.missing_evidence;
              }))
            (ok h)
        → IsGrounded ids h
    go true e = absurd (cc)
    go false e =
        subst (IsGrounded ids) (ok_inj e)
          (record { supports = r.supports; refutes = r.refutes; disjoint = r.disjoint })

-- Hypotheses that are published from an accepted decision cite submitted evidence only, and never
-- one item on both sides.
pub hypotheses-IsGrounded :
    (strip : String → String) (decoder : Decoder) (content : String) (ids codes : List String)
    (d : ReasoningDecision) (hs : List RootCauseHypothesis)
    → parse_decision decoder content ids codes ≡ ok d
    → hypotheses strip d ≡ ok hs
    → All (IsGrounded ids) hs
unfolding hypotheses
hypotheses-IsGrounded strip decoder content ids codes d hs p e =
    final (d.decision != DecisionKind.finish) e
  where
    each :
        (cs : List RankedCause) (hs : List RootCauseHypothesis)
        → All (IsResolved ids codes) cs
        → public_hypotheses strip cs ≡ ok hs
        → All (IsGrounded ids) hs
    each [] [] r e = tt
    each [] (h ∷ hs) r e = absurd (cc)
    each (c ∷ cs) hs r e =
        let (h, eh, e) = >>=-eq-ok _ _ e in
        let (rest, er, e) = >>=-eq-ok _ _ e in
        let both : All (IsGrounded ids) (h ∷ rest) =
          (public_hypothesis-IsGrounded strip ids codes c h r.0 eh, each cs rest r.1 er) in
        subst (All (IsGrounded ids)) (ok_inj e) both

    final :
        (b : Bool)
        → (if b then err value_error else public_hypotheses strip d.hypotheses) ≡ ok hs
        → All (IsGrounded ids) hs
    final true e = absurd (cc)
    final false e =
        each d.hypotheses hs ((parse_decision_iff decoder content ids codes d).0 p).resolved e
