-- ===== src/Orchestrator/Investigation/Checking.antt =====
-- The checks of collected evidence in src/payops/orchestrator/nodes.py: each one accepts, or breaks the
-- integrity of the evidence.
use pay_ops.Base.{
  String, true, ◌≡◌, refl, ap, ◌∙◌, List, [], ◌∷◌, arith, Bool-cases, inl, inr, ◌⊎◌, All, ◌!=◌,
  string_eq, ne-eq-false,
}
use pay_ops.Base.Result.{Result, ok, err, Error, integrity, is_value_error}
use pay_ops.Contracts.{EvidenceItem}
use pay_ops.Evidence.Verification.{Verifiers, verify_evidence, as_integrity}
use pay_ops.Orchestrator.Investigation.Nodes.{verify_collected_item, verify_own}

abbrev pub AllOwn : String → List EvidenceItem → Type 0
AllOwn id = All (λ (e : EvidenceItem). e.incident_id ≡ id)

pub as_integrity-err :
    {A : Type 0} (x : Result A) (e : Error)
    → ((e' : Error) → x ≡ err e' → is_value_error e' ≡ true)
    → as_integrity x ≡ err e
    → e ≡ integrity
as_integrity-err (ok a) e h k = absurd (cc)
as_integrity-err (err x) e h k = ground (arith, h x refl, k)

module _ (v : Verifiers)
    (checks : (item : EvidenceItem) (e : Error)
      → verify_evidence v item ≡ err e
      → is_value_error e ≡ true) where
  -- A check of collected evidence accepts it or breaks its integrity.
  pub verify_collected_item-cases :
      (item : EvidenceItem)
      → (verify_collected_item v item ≡ ok tt) ⊎ (verify_collected_item v item ≡ err integrity)
  unfolding verify_collected_item
  verify_collected_item-cases item = go (as_integrity (verify_evidence v item)) refl
    where
      go :
          (x : Result (Unit {0}))
          → as_integrity (verify_evidence v item) ≡ x
          → (as_integrity (verify_evidence v item) ≡ ok tt)
            ⊎ (as_integrity (verify_evidence v item) ≡ err integrity)
      go (ok tt) h = inl h
      go (err e) h = inr (h ∙ ap err (as_integrity-err (verify_evidence v item) e (checks item) h))

  pub verify_own-cases :
      (id : String) (es : List EvidenceItem)
      → (verify_own v id es ≡ ok tt) × AllOwn id es ⊎ (verify_own v id es ≡ err integrity)
  verify_own-cases id [] = inl (refl, tt)
  verify_own-cases id (item ∷ items) = elim (Bool-cases (item.incident_id != id)) [
    | inl e ↦ rw e (inr refl)
    | inr e ↦ rw e (elim (verify_collected_item-cases item) [
      | inr k ↦ rw k (inr refl)
      | inl k ↦ rw k (elim (verify_own-cases id items) [
        | inl (h, own) ↦ inl (h, ((ne-eq-false item.incident_id id).0 e, own))
        | inr h ↦ inr h
      ])
    ])
  ]
