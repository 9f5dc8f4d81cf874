-- ===== src/Orchestrator/Investigation/Ranking.antt =====
-- `rank` without a reasoner, and `finish`, of src/payops/orchestrator/nodes.py on a state that is on its way.
use pay_ops.Base.{
  ℕ, false, not, ◌≡◌, ◌≢◌, refl, sym, ap, ◌∙◌, Option, none, some, List, [], ◌∷◌, map, inl, inr,
  ◌⊎◌, All, Bool-cases, distinct, string_eq, arith, if◌then◌else◌,
}
use pay_ops.Base.Result.{Result, ok, err, Error, integrity, is_value_error, ◌>>=◌}
use pay_ops.Base.Json.{Json, null, boolean, integer, real, text, array, object, Members, lookup}
use pay_ops.Base.Table.{Codec}
use pay_ops.Contracts.{EvidenceItem, Incident, TerminalState, RootCauseHypothesis, incident_valid}
use pay_ops.Contracts.Citations.{validate_citations_iff}
use pay_ops.Evidence.Verification.{Verifiers, verify_evidence, verify_source, as_integrity}
use pay_ops.Orchestrator.Baseline.Signals.{
  Signal, Texts, signal_of, verified_items, verified, one_incident, latest_of, is_recent,
}
use pay_ops.Orchestrator.Baseline.Ranking.{rank_evidence, rank_signals}
use pay_ops.Orchestrator.Baseline.Corroboration.{rank_evidence-valid}
use pay_ops.Orchestrator.Investigation.States.{
  Phase, Collection, InvestigationBudget, InvestigationState, budget_out_of_range, updated,
}
use pay_ops.Orchestrator.Investigation.Nodes.{
  NodeHost, verify_collected_item, verify_all, ranked_baseline,
}
use pay_ops.Orchestrator.Investigation.Steps.{Directory, reason_with, block, rank_state}
use pay_ops.Orchestrator.Investigation.Progress.{IsUnderway, IsReliable, citations_of}
use pay_ops.Orchestrator.Investigation.Operations.{Advanced, advance, ended}
use pay_ops.Orchestrator.Investigation.Checking.{verify_collected_item-cases}

-- A call that accepts, or breaks the integrity of the evidence.
abbrev pub IsChecked {ℓ} : {A : Type ℓ} → Result A → Type ℓ
IsChecked {A = A} x = ((a : A) × (x ≡ ok a)) ⊎ (x ≡ err integrity)

raised : (e : Error) → as_integrity (as_integrity {A = Unit {0}} (err e)) ≢ ok tt
raised e h = elim (Bool-cases (is_value_error e)) [
  | inl t ↦ ground (arith, t, h)
  | inr t ↦ ground (arith, t, h)
]

module _ (v : Verifiers) where
  abbrev IsVerified : EvidenceItem → Type 0
  IsVerified item = (p : Members) × (v.verify item ≡ ok p)

  collected-IsVerified :
      (item : EvidenceItem) → verify_collected_item v item ≡ ok tt → IsVerified item
  unfolding verify_collected_item verify_evidence
  collected-IsVerified item h = go (v.verify item) refl
    where
      go : (x : Result Members) → v.verify item ≡ x → IsVerified item
      go (ok p) e = (p, e)
      go (err x) e = absurd (
          raised x (
            sym (
              ap (λ y. as_integrity (as_integrity (y >>= λ _. verify_source v item item.source))) e)
            ∙ h))

  verify_all-cases :
      (checks : (item : EvidenceItem)
        → (verify_collected_item v item ≡ ok tt) ⊎ (verify_collected_item v item ≡ err integrity))
      (es : List EvidenceItem)
      → (verify_all v es ≡ ok tt) × All IsVerified es ⊎ (verify_all v es ≡ err integrity)
  verify_all-cases checks [] = inl (refl, tt)
  verify_all-cases checks (item ∷ items) = elim (checks item) [
    | inr e ↦ rw e (inr refl)
    | inl e ↦ rw e (elim (verify_all-cases checks items) [
      | inl (k, all_verified) ↦ inl (k, (collected-IsVerified item e, all_verified))
      | inr k ↦ inr k
    ])
  ]

  signal_of-IsChecked :
      (latest : ℕ) (item : EvidenceItem) (payload : Json) (rest : Result (List Signal))
      → IsChecked rest
      → IsChecked (signal_of latest item payload rest)
  signal_of-IsChecked latest item (object payload) rest (inl (ss, e)) = inl (
    if is_recent latest item then record { item = item; payload = payload } ∷ ss else ss,
    rw e refl,
  )
  signal_of-IsChecked latest item (object payload) rest (inr e) = inr (rw e refl)
  signal_of-IsChecked latest item null rest h = inr refl
  signal_of-IsChecked latest item (boolean x) rest h = inr refl
  signal_of-IsChecked latest item (integer x) rest h = inr refl
  signal_of-IsChecked latest item (real x) rest h = inr refl
  signal_of-IsChecked latest item (text x) rest h = inr refl
  signal_of-IsChecked latest item (array x) rest h = inr refl

  verified_items-IsChecked :
      (latest : ℕ) (es : List EvidenceItem)
      → All IsVerified es
      → IsChecked (verified_items v.verify latest es)
  unfolding verified_items
  verified_items-IsChecked latest [] h = inl ([], refl)
  verified_items-IsChecked latest (item ∷ items) ((p, e), h) = rw e (
      signal_of-IsChecked latest item (lookup "payload" p) (verified_items v.verify latest items)
        (verified_items-IsChecked latest items h))

  rank_evidence-IsChecked :
      (texts : Texts) (es : List EvidenceItem)
      → All IsVerified es
      → IsChecked (rank_evidence texts v.verify es)
  unfolding rank_evidence verified
  rank_evidence-IsChecked texts es h = elim (Bool-cases (not (one_incident es))) [
    | inl e ↦ rw e (inr refl)
    | inr e ↦
        rw e (elim (Bool-cases (not (distinct (map (λ (e : EvidenceItem). e.evidence_id) es)))) [
          | inl e' ↦ rw e' (inr refl)
          | inr e' ↦ rw e' (elim (verified_items-IsChecked (latest_of 0 es) es h) [
            | inl (ss, k) ↦ rw k (inl (rank_signals texts ss, refl))
            | inr k ↦ rw k (inr refl)
          ])
        ])
  ]

module _ {Artifacts Text : Type 0} (host : NodeHost Artifacts Text) (batch : Codec Collection Text)
    (i : Incident) (b : InvestigationBudget) (valid : incident_valid i ≡ ok tt)
    (in_range : budget_out_of_range b ≡ false) (reliable : IsReliable host batch) where
  blocked :
      (s : InvestigationState) (w : Directory host batch)
      → IsUnderway host batch i b s w
      → s.hypotheses ≡ []
      → Advanced host batch i b Phase.ranked (block host batch s (err integrity, w))
  blocked s w u h =
      ended host batch i b valid in_range Phase.ranked s _ w TerminalState.security_block u h refl

  diagnosed :
      (s : InvestigationState) (w : Directory host batch) (hs : List RootCauseHypothesis)
      (t : TerminalState)
      → IsUnderway host batch i b s w
      → rank_evidence host.texts (host.verifiers w.artifacts).verify s.evidence ≡ ok hs
      → Advanced host batch i b Phase.ranked
          (updated (record s { phase = Phase.ranked; hypotheses = hs; terminal = some t }), w)
  diagnosed s w hs t u e =
      let cited =
        rank_evidence-valid host.texts (host.verifiers w.artifacts).verify
          (citations_of i.incident_id s.evidence hs) u.citable.own_evidence e in
      advance host batch i b valid in_range Phase.ranked _ w
        (record {
          incident = u.incident;
          budget = u.budget;
          unreported = u.unreported;
          receipts = u.receipts;
          steps = u.steps;
          tool_calls = u.tool_calls;
          backend_reads = u.backend_reads;
          citable = (validate_citations_iff (citations_of i.incident_id s.evidence hs)).0 cited;
          sound = u.sound;
        })
        (inl (λ k. cc)) (inr refl)

  baseline-Advanced :
      (s : InvestigationState) (w : Directory host batch)
      → IsUnderway host batch i b s w
      → s.hypotheses ≡ []
      → All (IsVerified (host.verifiers w.artifacts)) s.evidence
      → Advanced host batch i b Phase.ranked
          (block host batch s (ranked_baseline host.texts (host.verifiers w.artifacts) s, w))
  unfolding ranked_baseline
  baseline-Advanced s w u h checked =
      elim (rank_evidence-IsChecked (host.verifiers w.artifacts) host.texts s.evidence checked) [
        | inr e ↦ rw e (blocked s w u h)
        | inl (hs, e) ↦ rw e (unblocked _ (diagnosed s w hs _ u e))
      ]
    where
      unblocked :
          (x : Result InvestigationState)
          → Advanced host batch i b Phase.ranked (x, w)
          → Advanced host batch i b Phase.ranked (block host batch s (x, w))
      unblocked (ok t) a = a
      unblocked (err e) a = absurd (cc (ap (λ x. x.0) a.returned))

  pub rank_state-Advanced :
      (s : InvestigationState) (w : Directory host batch)
      → host.reasoner ≡ none
      → IsUnderway host batch i b s w
      → s.hypotheses ≡ []
      → Advanced host batch i b Phase.ranked (rank_state host batch s w)
  unfolding rank_state
  rank_state-Advanced s w none_bound u h =
      elim (verify_all-cases (host.verifiers w.artifacts)
        (verify_collected_item-cases (host.verifiers w.artifacts)
          (reliable.check_errors w.artifacts))
        s.evidence) [
          | inr e ↦ rw e (blocked s w u h)
          | inl (e, checked) ↦ rw e (reasoned host.reasoner none_bound checked)
        ]
    where
      reasoned :
          (r : Option (InvestigationState → Artifacts → Result InvestigationState × Artifacts))
          → r ≡ none
          → All (IsVerified (host.verifiers w.artifacts)) s.evidence
          → Advanced host batch i b Phase.ranked (block host batch s (reason_with host batch r s w))
      reasoned none e checked = baseline-Advanced s w u h checked
      reasoned (some r) e checked = absurd (cc)
