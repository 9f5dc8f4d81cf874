-- ===== src/Orchestrator/Baseline/Signals.antt =====
-- The verified signals of src/payops/orchestrator/baseline.py.
use pay_ops.Base.{
  String, Bool, true, not, ◌&&◌, Option, List, [], ◌∷◌, map, ◌!=◌, string_eq, leb, any, distinct,
  if◌then◌else◌, Time, age_within, max,
}
use pay_ops.Base.Result.{Result, ok, err, integrity, raise_if, ◌>>=◌, ◌>>◌}
use pay_ops.Base.Json.{Json, object, Members, lookup}
use pay_ops.Contracts.{source_eq, EvidenceItem}

pub record Signal : Type 0 where
  pub item : EvidenceItem
  pub payload : Members

-- The regular expressions of the module, `str.splitlines`, the partition of a line at its first
-- space, `datetime.fromisoformat` for aware times, and `str` of a JSON value.
pub record Texts : Type 0 where
  pub is_payment_pod : String → Bool
  pub is_config_header : String → Bool
  pub is_config_detail : String → Bool
  pub is_access_failure : String → Bool
  pub split_lines : String → List String
  pub partition : String → Option (String × String)
  pub aware_time : String → Option Time
  pub show_json : Json → String

abbrev pub latest_of : Time → List EvidenceItem → Time
latest_of t [] = t
latest_of t (item ∷ items) = latest_of (max t item.collected_at) items

-- `0 <= age <= MAX_AGE_SECONDS and item.observed_at <= item.collected_at`
abbrev pub is_recent : Time → EvidenceItem → Bool
is_recent latest item =
    age_within 120 latest item.observed_at && leb item.observed_at item.collected_at

abbrev pub one_incident : List EvidenceItem → Bool
one_incident [] = true
one_incident (item ∷ items) =
    not (any (λ (i : EvidenceItem). i.incident_id != item.incident_id) items)

abbrev pub signal_of : Time → EvidenceItem → Json → Result (List Signal) → Result (List Signal)
signal_of latest item (object payload) rest =
    (rest >>= λ signals. ok (
      if is_recent latest item
      then record { item = item; payload = payload } ∷ signals
      else signals))
signal_of latest item _ rest = err integrity

-- The loop of `_verified`, over `store.verify`.
unfoldable pub verified_items :
    (EvidenceItem → Result Members) → Time → List EvidenceItem → Result (List Signal)
verified_items verify latest [] = ok []
verified_items verify latest (item ∷ items) = do
  envelope ← verify item
  signal_of latest item (lookup "payload" envelope) (verified_items verify latest items)

-- `_verified`
unfoldable pub verified : (EvidenceItem → Result Members) → List EvidenceItem → Result (List Signal)
unfolding verified_items
verified verify evidence = do
  raise_if (not (one_incident evidence)) integrity
  raise_if (not (distinct (map (λ (e : EvidenceItem). e.evidence_id) evidence))) integrity
  verified_items verify (latest_of 0 evidence) evidence
