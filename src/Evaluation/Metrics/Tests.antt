-- ===== src/Evaluation/Metrics/Tests.antt =====
-- Recall at one and at two for one case of src/payops/evaluation/metrics.py.
use pay_ops.Base.{◌≤◌, ◌≡◌, refl, [], ◌∷◌, length, arith}
use pay_ops.Base.Result.{ok}
use pay_ops.Evaluation.Metrics.{RecallScore, Ranking, recall_at_k}
use pay_ops.Evaluation.Metrics.Bounds.{recall_at_k-monotone}

abbrev gold : Ranking
gold = ("case-1", "leak" ∷ []) ∷ []

abbrev predictions : Ranking
predictions = ("case-1", "crash" ∷ "leak" ∷ []) ∷ []

abbrev at_one : RecallScore
at_one = record { hits = 0; total = 1; k = 1 }

abbrev at_two : RecallScore
at_two = record { hits = 1; total = 1; k = 2 }

missed_at_one : recall_at_k gold predictions 1 ≡ ok at_one
unfolding recall_at_k
missed_at_one = refl

hit_at_two : recall_at_k gold predictions 2 ≡ ok at_two
unfolding recall_at_k
hit_at_two = refl

recall_at_k-monotone_example :
    (at_one.total ≡ length gold)
    × (at_two.total ≡ length gold)
    × (at_one.hits ≤ at_two.hits)
    × (at_two.hits ≤ length gold)
recall_at_k-monotone_example =
    recall_at_k-monotone gold predictions 1 2 at_one at_two missed_at_one hit_at_two (omega arith)
