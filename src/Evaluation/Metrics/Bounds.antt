-- ===== src/Evaluation/Metrics/Bounds.antt =====
-- Bounds and monotonicity of the scores of src/payops/evaluation/metrics.py.
use pay_ops.Base.{
  ℕ, zero, suc, ◌≤◌, String, true, not, ◌||◌, ◌≡◌, sym, ap, List, [], ◌∷◌, map, ◌==◌, string_eq,
  nat_eq, length, any, contains, distinct, arith,
}
use pay_ops.Base.Result.{ok, value_error, raise_if, >>=-eq-ok, ok_inj}
use pay_ops.Evaluation.Metrics.{
  RecallScore, Ranking, lookup, take, is_empty, count_hits, recall_at_k,
}

count_hits-le :
    (predictions : Ranking) (k : ℕ) (gold : Ranking) → count_hits predictions k gold ≤ length gold
count_hits-le predictions k [] = omega arith
count_hits-le predictions k ((case, accepted) ∷ gold) =
    ground (arith, count_hits-le predictions k gold)

contains-take :
    (x : String) (k j : ℕ) (xs : List String)
    → k ≤ j
    → contains x (take k xs) ≡ true
    → contains x (take j xs) ≡ true
contains-take x zero j xs le h = absurd (cc)
contains-take x (suc k) zero xs le h = absurd (omega (arith, le))
contains-take x (suc k) (suc j) [] le h = absurd (cc)
contains-take x (suc k) (suc j) (y ∷ ys) le h = ground (arith, contains-take x k j ys, le, h)

any-take :
    (accepted : List String) (k j : ℕ) (xs : List String)
    → k ≤ j
    → any (λ cause. contains cause (take k xs)) accepted ≡ true
    → any (λ cause. contains cause (take j xs)) accepted ≡ true
any-take [] k j xs le h = absurd (cc)
any-take (c ∷ cs) k j xs le h = ground (arith, contains-take c k j xs le, any-take cs k j xs le, h)

count_hits-monotone :
    (predictions : Ranking) (k j : ℕ) (gold : Ranking)
    → k ≤ j
    → count_hits predictions k gold ≤ count_hits predictions j gold
count_hits-monotone predictions k j [] le = omega arith
count_hits-monotone predictions k j ((case, accepted) ∷ gold) le = ground (
  arith,
  any-take accepted k j (lookup case predictions) le,
  count_hits-monotone predictions k j gold le,
)

scored :
    (gold predictions : Ranking) (k : ℕ) (s : RecallScore)
    → recall_at_k gold predictions k ≡ ok s
    → (record { hits = count_hits predictions k gold; total = length gold; k = k }) ≡ s
unfolding recall_at_k
scored gold predictions k s e =
    let (_, _, e) =
      >>=-eq-ok
        (raise_if
          (is_empty gold
            || k == 0
            || any
                (λ (p : String × List String).
                  not (contains p.0 (map (λ (g : String × List String). g.0) gold)))
                predictions)
          value_error)
        _ e in
    let (_, _, e) =
      >>=-eq-ok
        (raise_if (any (λ (g : String × List String). is_empty g.1 || not (distinct g.1)) gold)
          value_error)
        _ e in
    let (_, _, e) =
      >>=-eq-ok
        (raise_if (any (λ (p : String × List String). not (distinct p.1)) predictions) value_error)
        _ e in
    ok_inj e

-- Two recall scores of the same cases and predictions have every case as their total, no more hits
-- than cases, and no fewer hits at the larger rank.
pub recall_at_k-monotone :
    (gold predictions : Ranking) (k j : ℕ) (s t : RecallScore)
    → recall_at_k gold predictions k ≡ ok s
    → recall_at_k gold predictions j ≡ ok t
    → k ≤ j
    → (s.total ≡ length gold) × (t.total ≡ length gold) × (s.hits ≤ t.hits) × (t.hits ≤ length gold)
recall_at_k-monotone gold predictions k j s t e f le =
    let at_k = scored gold predictions k s e in
    let at_j = scored gold predictions j t f in
    (
      sym (ap (λ (r : RecallScore). r.total) at_k),
      sym (ap (λ (r : RecallScore). r.total) at_j),
      omega (
        arith,
        ap (λ (r : RecallScore). r.hits) at_k,
        ap (λ (r : RecallScore). r.hits) at_j,
        count_hits-monotone predictions k j gold le,
      ),
      omega (arith, ap (λ (r : RecallScore). r.hits) at_j, count_hits-le predictions j gold),
    )
