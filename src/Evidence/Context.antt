-- ===== src/Evidence/Context.antt =====
-- src/payops/evidence/context.py: the bounded context of verified evidence that a model is shown.
pub mod Sorting
pub mod Bounds
mod Tests
use pay_ops.Base.{
  ℕ, suc, ◌+◌, ◌-◌, String, Bool, true, false, not, ◌&&◌, ◌||◌, Option, none, some, List, [], ◌∷◌,
  ◌++◌, map, Eq, ◌==◌, ◌!=◌, string_eq, nat_eq, bool_eq, ltb, leb, length, contains, distinct,
  if◌then◌else◌, Time,
}
use pay_ops.Base.Result.{
  Result, ok, err, Error, value_error, integrity, key_error, raise_if, is_value_error, ◌>>=◌, ◌>>◌,
}
use pay_ops.Base.Table.{find_row}
use pay_ops.Contracts.{
  Source, source_eq, kubernetes, prometheus, log, trace, deployment, payment, runbook, memory,
  EvidenceItem,
}

-- `PRIORITY`
abbrev pub priority : Source → ℕ
priority payment = 0
priority deployment = 1
priority kubernetes = 2
priority prometheus = 3
priority trace = 4
priority log = 5
priority runbook = 6
priority memory = 7

abbrev pub is_retrieved : Source → Bool
is_retrieved runbook = true
is_retrieved memory = true
is_retrieved _ = false

pub record ContextEntry (Facts : Type 0) : Type 0 where
  pub evidence : EvidenceItem
  pub facts : Option Facts
  pub facts_omitted : Bool

pub record ReasoningContext (Facts : Type 0) : Type 0 where
  pub entries : List (ContextEntry Facts)
  pub omitted_count : ℕ

-- `ReasoningContext.evidence_ids`
abbrev pub evidence_ids : {Facts : Type 0} → ReasoningContext Facts → List String
evidence_ids c = map (λ e. e.evidence.evidence_id) c.entries

-- What the context is built with: `verify_evidence` and `_facts` over an artifact store,
-- `support_index` over the facts, the length of a context's JSON, and Python's order of texts.
pub record Sources (Facts : Type 0) : Type 0 where
  pub verify_evidence : EvidenceItem → Result (Unit {0})
  pub facts_of : Bool → EvidenceItem → Result Facts
  pub signaled : List (EvidenceItem × Facts) → List String
  pub json_length : ReasoningContext Facts → ℕ
  pub text_le : String → String → Bool

module _ {A : Type 0} (le : A → A → Bool) where
  abbrev pub insert : A → List A → List A
  insert x [] = x ∷ []
  insert x (y ∷ ys) = if le x y then x ∷ y ∷ ys else y ∷ insert x ys

  -- `sorted`, which keeps the order of equal items.
  unfoldable pub sorted : List A → List A
  sorted [] = []
  sorted (x ∷ xs) = insert x (sorted xs)

-- Tuples are compared by their first difference; `false` sorts before `true`.
abbrev pub bool_then : Bool → Bool → Bool → Bool
bool_then false true rest = true
bool_then true false rest = false
bool_then _ _ rest = rest

abbrev pub nat_then : ℕ → ℕ → Bool → Bool
nat_then a b rest = if ltb a b then true else if ltb b a then false else rest

-- The key of the second `sorted` of `_ordered`: newer items first.
abbrev pub recent_le :
    (String → String → Bool) → List String → List String → EvidenceItem → EvidenceItem → Bool
recent_le text_le signaled preferred x y =
    bool_then (not (contains x.evidence_id signaled)) (not (contains y.evidence_id signaled)) (
      bool_then (not (contains x.evidence_id preferred)) (not (contains y.evidence_id preferred)) (
        bool_then (is_retrieved x.source) (is_retrieved y.source) (
          nat_then y.observed_at x.observed_at (
            nat_then (priority x.source) (priority y.source)
              (text_le x.evidence_id y.evidence_id)))))

-- How many of the groups seen before are this one: `counts.get(group, 0)`.
abbrev pub depth_of : Source → String → List (Source × String) → ℕ
depth_of source resource [] = 0
depth_of source resource ((s, r) ∷ groups) =
    (if s == source && r == resource then 1 else 0) + depth_of source resource groups

abbrev pub ranked : List (Source × String) → ℕ → List EvidenceItem → List (ℕ × ℕ × EvidenceItem)
ranked seen index [] = []
ranked seen index (entry ∷ entries) =
    (depth_of entry.source entry.resource seen, index, entry)
    ∷ ranked ((entry.source, entry.resource) ∷ seen) (suc index) entries

abbrev pub rank_le : ℕ × ℕ × EvidenceItem → ℕ × ℕ × EvidenceItem → Bool
rank_le (d, i, _) (e, j, _) = nat_then d e (leb i j)

-- `_ordered`
unfoldable pub ordered :
    (String → String → Bool)
    → Bool
    → List String
    → List String
    → List EvidenceItem
    → List EvidenceItem
unfolding sorted
ordered text_le recent preferred signaled evidence =
    if not recent
    then sorted (λ x y. leb (priority x.source) (priority y.source)) evidence
    else map (λ (_, _, entry). entry)
        (sorted rank_le (ranked [] 0 (sorted (recent_le text_le signaled preferred) evidence)))

module _ {Facts : Type 0} (sources : Sources Facts) where
  abbrev pub with_entry : ReasoningContext Facts → ContextEntry Facts → ReasoningContext Facts
  with_entry bundle entry = record {
    entries = bundle.entries ++ entry ∷ [];
    omitted_count = bundle.omitted_count - 1;
  }

  abbrev pub bare : ContextEntry Facts → ContextEntry Facts
  bare entry = record { evidence = entry.evidence; facts = none; facts_omitted = true }

  -- `_append`
  unfoldable pub append_entry :
      ReasoningContext Facts → ContextEntry Facts → ℕ → ReasoningContext Facts
  append_entry bundle entry limit =
      if leb (sources.json_length (with_entry bundle entry)) limit
      then with_entry bundle entry
      else if leb (sources.json_length (with_entry bundle (bare entry))) limit
      then with_entry bundle (bare entry)
      else bundle

  -- The first loop of `build_context`.
  unfoldable pub check_items : String → List EvidenceItem → Result (Unit {0})
  check_items incident_id [] = ok tt
  check_items incident_id (item ∷ items) = do
    raise_if (item.incident_id != incident_id) integrity
    sources.verify_evidence item
    check_items incident_id items

  -- The dictionary of facts.
  abbrev pub collect_facts : Bool → List EvidenceItem → Result (List (EvidenceItem × Facts))
  collect_facts recent [] = ok []
  collect_facts recent (item ∷ items) = do
    facts ← sources.facts_of recent item
    rest ← collect_facts recent items
    ok ((item, facts) ∷ rest)

  abbrev pub facts_by_id : String → List (EvidenceItem × Facts) → Result Facts
  facts_by_id id [] = err key_error
  facts_by_id id ((item, facts) ∷ rest) =
      if item.evidence_id == id then ok facts else facts_by_id id rest

  abbrev pub operational : List (EvidenceItem × Facts) → List (EvidenceItem × Facts)
  operational [] = []
  operational ((item, facts) ∷ rest) =
      if is_retrieved item.source then operational rest else (item, facts) ∷ operational rest

  -- The last loop of `build_context`: it stops at `max_items` entries.
  unfoldable pub fill :
      ℕ
      → ℕ
      → List (EvidenceItem × Facts)
      → ReasoningContext Facts
      → List EvidenceItem
      → Result (ReasoningContext Facts)
  unfolding append_entry
  fill max_characters max_items table bundle [] = ok bundle
  fill max_characters max_items table bundle (item ∷ items) =
      if leb max_items (length bundle.entries)
      then ok bundle
      else (facts_by_id item.evidence_id table >>= λ facts.
          fill max_characters max_items table
            (append_entry bundle
              (record { evidence = item; facts = some facts; facts_omitted = false })
              max_characters)
            items)

  unfoldable pub build_context :
      List EvidenceItem → String → ℕ → ℕ → Bool → List String → Result (ReasoningContext Facts)
  unfolding check_items ordered fill
  build_context evidence incident_id max_characters max_items recent_first preferred_ids = do
    raise_if
        (not (leb 128 max_characters && leb max_characters 24000)
          || not (leb max_items 64)
          || ltb 256 (length evidence))
        value_error
    raise_if (not (distinct (map (λ (item : EvidenceItem). item.evidence_id) evidence))) integrity
    check_items incident_id evidence
    table ← collect_facts recent_first evidence
    fill max_characters max_items table (record { entries = []; omitted_count = length evidence })
        (ordered sources.text_le recent_first preferred_ids
          (if recent_first then sources.signaled (operational table) else []) evidence)
