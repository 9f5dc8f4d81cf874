-- ===== src/Orchestrator/Baseline/Corroboration.antt =====
-- What a diagnosis of src/payops/orchestrator/baseline.py may be reported with.
use pay_ops.Base.{
  ℕ, String, Bool, true, false, not, ◌&&◌, ◌≡◌, refl, subst, inl, inr, List, [], ◌∷◌, ◌++◌, map,
  ◌==◌, string_eq, In, All, IsDistinct, distinct, distinct_iff, Bool-cases, if◌then◌else◌,
  not-eq-false, arith,
}
use pay_ops.Base.Result.{Result, ok, integrity, raise_if, raise_if-eq-ok, >>=-eq-ok, ok_inj}
use pay_ops.Base.Json.{Json, null, boolean, integer, real, text, array, object, Members, lookup}
use pay_ops.Contracts.{EvidenceItem, RootCauseHypothesis, IncidentReport, validate_citations}
use pay_ops.Contracts.Citations.{IsGrounded, validate_citations_iff}
use pay_ops.Orchestrator.Baseline.Signals.{
  Signal, Texts, is_recent, signal_of, latest_of, one_incident, verified_items, verified,
}
use pay_ops.Orchestrator.Baseline.Ranking.{
  select, without, first_of_each, hypothesis, some_of, when, rules, rank_signals, rank_evidence,
}

-- The item of a signal is one of those with the ids `ids`.
abbrev IsOf : List String → Signal → Type 0
IsOf ids s = In s.item.evidence_id ids

module _ (P : Signal → Type 0) where
  All-select : (p : Signal → Bool) (ss : List Signal) → All P ss → All P (select p ss)
  All-select p [] h = tt
  All-select p (s ∷ ss) h = elim (Bool-cases (p s)) [
    | inl e ↦ rw e (h.0, All-select p ss h.1)
    | inr e ↦ rw e (All-select p ss h.1)
  ]

  All-append : (xs ys : List Signal) → All P xs → All P ys → All P (xs ++ ys)
  All-append [] ys h k = k
  All-append (x ∷ xs) ys h k = (h.0, All-append xs ys h.1 k)

module _ (ids : List String) where
  All-without :
      (x : String) (xs : List String) → All (λ i. In i ids) xs → All (λ i. In i ids) (without x xs)
  All-without x [] h = tt
  All-without x (y ∷ ys) h = elim (Bool-cases (y == x)) [
    | inl e ↦ rw e (All-without x ys h.1)
    | inr e ↦ rw e (h.0, All-without x ys h.1)
  ]

  All-first_of_each :
      (ss : List Signal)
      → All (IsOf ids) ss
      → All (λ i. In i ids) (first_of_each (map (λ (s : Signal). s.item.evidence_id) ss))
  All-first_of_each [] h = tt
  All-first_of_each (s ∷ ss) h = (h.0, All-without s.item.evidence_id _ (All-first_of_each ss h.1))

  no_refuting : (xs : List String) → All (λ i. ¬ In i []) xs
  no_refuting [] = tt
  no_refuting (x ∷ xs) = (λ h. h, no_refuting xs)

  hypothesis-IsGrounded :
      (code : String) (score : ℕ) (ss : List Signal)
      → All (IsOf ids) ss
      → IsGrounded ids (hypothesis code score ss)
  hypothesis-IsGrounded code score ss h = record {
    supports = All-first_of_each ss h;
    refutes = tt;
    disjoint = no_refuting _;
  }

  -- One rule, on top of the rules after it.
  rule-IsGrounded :
      (b : Bool) (code : String) (score : ℕ) (ss : List Signal) (hs : List RootCauseHypothesis)
      → All (IsOf ids) ss
      → All (IsGrounded ids) hs
      → All (IsGrounded ids) (when b (hypothesis code score ss) hs)
  rule-IsGrounded true code score ss hs h gs = (hypothesis-IsGrounded code score ss h, gs)
  rule-IsGrounded false code score ss hs h gs = gs

  three :
      (x y z : List Signal)
      → All (IsOf ids) x
      → All (IsOf ids) y
      → All (IsOf ids) z
      → All (IsOf ids) (x ++ y ++ z)
  three x y z hx hy hz = All-append (IsOf ids) (x ++ y) z (All-append (IsOf ids) x y hx hy) hz

  rules-IsGrounded :
      (d c f u p a e r : List Signal)
      → All (IsOf ids) d
      → All (IsOf ids) c
      → All (IsOf ids) f
      → All (IsOf ids) u
      → All (IsOf ids) p
      → All (IsOf ids) a
      → All (IsOf ids) e
      → All (IsOf ids) r
      → All (IsGrounded ids) (rules d c f u p a e r)
  rules-IsGrounded d c f u p a e r hd hc hf hu hp ha he hr =
      let fourth =
        rule-IsGrounded (some_of d && some_of c) "STARTUP_FAILURE" 4604930618986332160 (d ++ c) []
          (All-append (IsOf ids) d c hd hc) tt in
      let third =
        rule-IsGrounded (some_of a && some_of e && some_of r) "PROCESSOR_UNAVAILABLE"
          4605831338911806259 (a ++ e ++ r)
          (when (some_of d && some_of c) (hypothesis "STARTUP_FAILURE" 4604930618986332160 (d ++ c))
            [])
          (three a e r ha he hr) fourth in
      let second =
        rule-IsGrounded (some_of d && some_of u && some_of p) "READINESS_PROBE_FAILURE"
          4606281698874543309 (d ++ u ++ p)
          (when (some_of a && some_of e && some_of r)
            (hypothesis "PROCESSOR_UNAVAILABLE" 4605831338911806259 (a ++ e ++ r))
            (when (some_of d && some_of c)
              (hypothesis "STARTUP_FAILURE" 4604930618986332160 (d ++ c)) []))
          (three d u p hd hu hp) third in
      rule-IsGrounded (some_of d && some_of c && some_of f) "INVALID_CONFIGURATION"
        4606732058837280358 (d ++ c ++ f)
        (when (some_of d && some_of u && some_of p)
          (hypothesis "READINESS_PROBE_FAILURE" 4606281698874543309 (d ++ u ++ p))
          (when (some_of a && some_of e && some_of r)
            (hypothesis "PROCESSOR_UNAVAILABLE" 4605831338911806259 (a ++ e ++ r))
            (when (some_of d && some_of c)
              (hypothesis "STARTUP_FAILURE" 4604930618986332160 (d ++ c)) [])))
        (three d c f hd hc hf) second

  signal_of-IsOf :
      (latest : ℕ) (item : EvidenceItem) (payload : Json) (rest : Result (List Signal))
      (ss : List Signal)
      → In item.evidence_id ids
      → ((ts : List Signal) → rest ≡ ok ts → All (IsOf ids) ts)
      → signal_of latest item payload rest ≡ ok ss
      → All (IsOf ids) ss
  signal_of-IsOf latest item (object payload) rest ss h hr e =
      let (ts, found, e) = >>=-eq-ok rest _ e in
      added (is_recent latest item) ts (hr ts found) (ok_inj e)
    where
      added :
          (b : Bool) (ts : List Signal)
          → All (IsOf ids) ts
          → (if b then record { item = item; payload = payload } ∷ ts else ts) ≡ ss
          → All (IsOf ids) ss
      added true ts hs e = subst (All (IsOf ids)) e (h, hs)
      added false ts hs e = subst (All (IsOf ids)) e hs
  signal_of-IsOf latest item null rest ss h hr e = absurd (cc)
  signal_of-IsOf latest item (boolean b) rest ss h hr e = absurd (cc)
  signal_of-IsOf latest item (integer n) rest ss h hr e = absurd (cc)
  signal_of-IsOf latest item (real n) rest ss h hr e = absurd (cc)
  signal_of-IsOf latest item (text t) rest ss h hr e = absurd (cc)
  signal_of-IsOf latest item (array xs) rest ss h hr e = absurd (cc)

  verified_items-IsOf :
      (verify : EvidenceItem → Result Members) (latest : ℕ) (items : List EvidenceItem)
      (ss : List Signal)
      → All (λ (e : EvidenceItem). In e.evidence_id ids) items
      → verified_items verify latest items ≡ ok ss
      → All (IsOf ids) ss
  unfolding verified_items
  verified_items-IsOf verify latest [] ss h e = subst (All (IsOf ids)) (ok_inj e) tt
  verified_items-IsOf verify latest (item ∷ items) ss h e =
      let (envelope, _, e) = >>=-eq-ok (verify item) _ e in
      signal_of-IsOf latest item (lookup "payload" envelope) (verified_items verify latest items) ss
        h.0 (λ ts. verified_items-IsOf verify latest items ts h.1) e

All-ids :
    (items : List EvidenceItem)
    → All
        (λ (e : EvidenceItem). In e.evidence_id (map (λ (e : EvidenceItem). e.evidence_id) items))
        items
All-ids items = go items (map (λ (e : EvidenceItem). e.evidence_id) items) (λ i h. h)
  where
    go :
        (xs : List EvidenceItem) (ids : List String)
        → ((i : String) → In i (map (λ (e : EvidenceItem). e.evidence_id) xs) → In i ids)
        → All (λ (e : EvidenceItem). In e.evidence_id ids) xs
    go [] ids h = tt
    go (x ∷ xs) ids h = (h x.evidence_id (inl refl), go xs ids (λ i k. h i (inr k)))

-- The four causes differ, whichever of them are reported.
when-distinct :
    (a b c d : Bool) (s t u v : List Signal) (i j k l : ℕ)
    → distinct (
        map
          (λ (h : RootCauseHypothesis). h.cause_code)
          (when a (hypothesis "INVALID_CONFIGURATION" i s) (
            when b (hypothesis "READINESS_PROBE_FAILURE" j t) (
              when c
                (hypothesis "PROCESSOR_UNAVAILABLE" k u)
                (when d (hypothesis "STARTUP_FAILURE" l v) [])))))
      ≡ true
when-distinct a b c d s t u v i j k l = ground arith

rank_signals-IsGrounded :
    (ids : List String) (texts : Texts) (ss : List Signal)
    → All (IsOf ids) ss
    → All (IsGrounded ids) (rank_signals texts ss)
rank_signals-IsGrounded ids texts ss h =
    rules-IsGrounded ids _ _ _ _ _ _ _ _ (All-select (IsOf ids) _ ss h)
      (All-select (IsOf ids) _ ss h) (All-select (IsOf ids) _ ss h) (All-select (IsOf ids) _ ss h)
      (All-select (IsOf ids) _ ss h) (All-select (IsOf ids) _ ss h) (All-select (IsOf ids) _ ss h)
      (All-select (IsOf ids) _ ss h)

-- A report whose causes are the baseline's diagnosis of its own evidence passes the citation rules of
-- reports, when that evidence belongs to the report's incident.
pub rank_evidence-valid :
    (texts : Texts) (verify : EvidenceItem → Result Members) (r : IncidentReport)
    → All (λ (e : EvidenceItem). e.incident_id ≡ r.incident_id) r.evidence
    → rank_evidence texts verify r.evidence ≡ ok r.ranked_root_causes
    → validate_citations r ≡ ok tt
unfolding rank_evidence verified
rank_evidence-valid texts verify r own e =
    let ids = map (λ (e : EvidenceItem). e.evidence_id) r.evidence in
    let (ss, found, e) = >>=-eq-ok (verified verify r.evidence) _ e in
    let (_, _, found) = >>=-eq-ok (raise_if (not (one_incident r.evidence)) integrity) _ found in
    let (_, unique, found) = >>=-eq-ok (raise_if (not (distinct ids)) integrity) _ found in
    let hs = rank_signals-IsGrounded ids texts ss (
      verified_items-IsOf ids verify (latest_of 0 r.evidence) r.evidence ss (All-ids r.evidence)
        found) in
    (validate_citations_iff r).1 (record {
      distinct_evidence = (distinct_iff ids).0 ((not-eq-false _).0 ((raise_if-eq-ok _ _).0 unique));
      own_evidence = own;
      distinct_causes =
          subst (λ hs. IsDistinct (map (λ (h : RootCauseHypothesis). h.cause_code) hs)) (ok_inj e)
            ((distinct_iff _).0 (when-distinct _ _ _ _ _ _ _ _ _ _ _ _));
      grounded = subst (All (IsGrounded ids)) (ok_inj e) hs;
    })
