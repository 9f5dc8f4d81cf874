-- ===== src/Evaluation/Metrics.antt =====
-- src/payops/evaluation/metrics.py: recall of ranked causes and accuracy of evidence attributions.
-- A mapping is a list of pairs with distinct keys; `percentile`, which sorts floats, is left out.
pub mod Bounds
mod Tests
use pay_ops.Base.{
  ℕ, zero, suc, ◌+◌, ◌*◌, String, Bool, true, false, not, ◌&&◌, ◌||◌, Option, none, some, List, [],
  ◌∷◌, map, Eq, ◌==◌, ◌!=◌, string_eq, nat_eq, ltb, leb, length, any, contains, distinct,
  discrete_eq, String_discrete, if◌then◌else◌,
}
use pay_ops.Base.Result.{
  Result, ok, err, Error, value_error, other, is_value_error, raise_if, ◌>>=◌, ◌>>◌,
}
use pay_ops.Contracts.{EvidenceItem}

pub record RecallScore : Type 0 where
  pub hits : ℕ
  pub total : ℕ
  pub k : ℕ

-- `RecallScore.meets`: fractions compared exactly; a total of zero divides by zero.
unfoldable pub meets : RecallScore → ℕ → ℕ → Result Bool
meets s required_hits required_total =
    if required_total == 0 || ltb required_total required_hits
    then err value_error
    else if s.total == 0
    then err other
    else ok (leb (required_hits * s.total) (s.hits * required_total))

abbrev pub Ranking : Type 0
Ranking = List (String × List String)

abbrev pub lookup : String → Ranking → List String
lookup case [] = []
lookup case ((key, causes) ∷ rest) = if key == case then causes else lookup case rest

abbrev pub take : ℕ → List String → List String
take zero xs = []
take (suc n) [] = []
take (suc n) (x ∷ xs) = x ∷ take n xs

abbrev pub is_empty {ℓ} : {A : Type ℓ} → List A → Bool
is_empty [] = true
is_empty (_ ∷ _) = false

-- `bool(set(accepted) & set(predictions.get(case, ())[:k]))`
abbrev pub is_hit : Ranking → ℕ → String → List String → Bool
is_hit predictions k case accepted =
    any (λ cause. contains cause (take k (lookup case predictions))) accepted

abbrev pub count_hits : Ranking → ℕ → Ranking → ℕ
count_hits predictions k [] = 0
count_hits predictions k ((case, accepted) ∷ gold) =
    (if is_hit predictions k case accepted then 1 else 0) + count_hits predictions k gold

unfoldable pub recall_at_k : Ranking → Ranking → ℕ → Result RecallScore
recall_at_k gold predictions k = do
  raise_if
      (is_empty gold
        || k == 0
        || any
            (λ (p : String × List String).
              not (contains p.0 (map (λ (g : String × List String). g.0) gold)))
            predictions)
      value_error
  raise_if (any (λ (g : String × List String). is_empty g.1 || not (distinct g.1)) gold) value_error
  raise_if (any (λ (p : String × List String). not (distinct p.1)) predictions) value_error
  ok (record { hits = count_hits predictions k gold; total = length gold; k = k })

pub data Relation : Type 0 where
  supports refutes : Relation

unfoldable pub Relation-discrete : Discrete Relation
Relation-discrete = hlevel

pub record Attribution : Type 0 where
  pub incident_id : String
  pub cause_code : String
  pub evidence_id : String
  pub relation : Relation

unfoldable pub Attribution-discrete : Discrete Attribution
Attribution-discrete = hlevel (String_discrete, Relation-discrete)

instance abbrev pub attribution_eq : Eq Attribution
attribution_eq = discrete_eq Attribution-discrete

pub record AttributionScore : Type 0 where
  pub correct : ℕ
  pub total : ℕ
  pub invalid : ℕ

-- `frozenset(predicted)`
abbrev pub unique : List Attribution → List Attribution
unique [] = []
unique (x ∷ xs) = if contains x xs then unique xs else x ∷ unique xs

abbrev pub find_evidence : String → List (String × EvidenceItem) → Option EvidenceItem
find_evidence id [] = none
find_evidence id ((key, item) ∷ rest) = if key == id then some item else find_evidence id rest

abbrev pub add_invalid : AttributionScore → AttributionScore
add_invalid s = record s { invalid = s.invalid + 1 }

abbrev pub score_verified :
    List Attribution → Attribution → Result (Unit {0}) → AttributionScore → Result AttributionScore
score_verified gold link (ok _) s =
    ok (record s { correct = s.correct + (if contains link gold then 1 else 0) })
score_verified gold link (err e) s = if is_value_error e then ok (add_invalid s) else err e

-- The body of the loop, over `verify_evidence`.
abbrev pub score_item :
    (EvidenceItem → Result (Unit {0}))
    → List Attribution
    → Attribution
    → Option EvidenceItem
    → AttributionScore
    → Result AttributionScore
score_item verify gold link none s = ok (add_invalid s)
score_item verify gold link (some item) s =
    if item.incident_id != link.incident_id || item.evidence_id != link.evidence_id
    then ok (add_invalid s)
    else score_verified gold link (verify item) s

abbrev pub score_links :
    (EvidenceItem → Result (Unit {0}))
    → List Attribution
    → List (String × EvidenceItem)
    → List Attribution
    → AttributionScore
    → Result AttributionScore
score_links verify gold evidence [] s = ok s
score_links verify gold evidence (link ∷ links) s =
    (score_item verify gold link (find_evidence link.evidence_id evidence) s >>= λ t.
    score_links verify gold evidence links t)

unfoldable pub attribution_accuracy :
    (EvidenceItem → Result (Unit {0}))
    → List Attribution
    → List Attribution
    → List (String × EvidenceItem)
    → Result AttributionScore
attribution_accuracy verify predicted gold evidence =
    score_links verify gold evidence (unique predicted)
      (record { correct = 0; total = length (unique predicted); invalid = 0 })
