-- ===== src/Orchestrator/Reasoning.antt =====
-- src/payops/orchestrator/reasoning.py: decisions of a reasoning model and the usage that its
-- provider reports, with the catalog of reads of src/payops/tools/registry.py. The bounds of single
-- text fields and of tuple lengths are pydantic's.
pub mod Decisions
mod Tests
use pay_ops.Base.{
  is_some, ℕ, ◌+◌, ◌-◌, ◌*◌, String, Bool, true, false, not, ◌&&◌, ◌||◌, Option, none, some, List,
  [], ◌∷◌, map, ◌++◌, if◌then◌else◌, Eq, ◌==◌, ◌!=◌, string_eq, nat_eq, bool_eq, ltb, any, all,
  contains, distinct, discrete_eq, ℕ_discrete, Option-discrete, String_discrete,
}
use pay_ops.Base.Result.{Result, ok, err, value_error, raise_if, ◌>>=◌, ◌>>◌}
use pay_ops.Contracts.{RootCauseHypothesis}

pub data ToolName : Type 0 where
  workload_status pod_events recent_logs payment_snapshot runbook_search incident_search : ToolName

unfoldable pub ToolName-discrete : Discrete ToolName
ToolName-discrete = hlevel

pub data Service : Type 0 where
  payments_api processor_adapter risk_sim ledger_sim webhook_sim : Service

unfoldable pub Service-discrete : Discrete Service
Service-discrete = hlevel

pub record ReadRequest : Type 0 where
  pub tool : ToolName
  pub service : Service
  pub query : Option String

unfoldable pub ReadRequest-discrete : Discrete ReadRequest
ReadRequest-discrete = hlevel (ToolName-discrete, Service-discrete, Option-discrete String_discrete)

instance abbrev pub read_request_eq : Eq ReadRequest
read_request_eq = discrete_eq ReadRequest-discrete

-- `CATALOG[tool].backend_reads` of src/payops/tools/registry.py
abbrev pub backend_reads_of : ToolName → ℕ
backend_reads_of workload_status = 2
backend_reads_of pod_events = 2
backend_reads_of recent_logs = 1
backend_reads_of payment_snapshot = 2
backend_reads_of runbook_search = 1
backend_reads_of incident_search = 1

abbrev pub is_retrieval : ToolName → Bool
is_retrieval runbook_search = true
is_retrieval incident_search = true
is_retrieval _ = false

-- `ReadRequest.query_scope`
unfoldable pub query_scope : ReadRequest → Result (Unit {0})
query_scope r = raise_if (is_retrieval r.tool != is_some r.query) value_error

-- The same validator for each request of a tuple.
unfoldable pub query_scopes : List ReadRequest → Result (Unit {0})
unfolding query_scope
query_scopes [] = ok tt
query_scopes (r ∷ rs) = query_scope r >> query_scopes rs

pub record RankedCause : Type 0 where
  pub cause_code : String
  pub confidence : ℕ
  pub supporting_evidence_ids : List String
  pub refuting_evidence_ids : List String
  pub missing_evidence : List String

pub data DecisionKind : Type 0 where
  read finish refuse : DecisionKind

unfoldable pub DecisionKind-discrete : Discrete DecisionKind
DecisionKind-discrete = hlevel

instance abbrev pub decision_kind_eq : Eq DecisionKind
decision_kind_eq = discrete_eq DecisionKind-discrete

pub record ReasoningDecision : Type 0 where
  pub decision : DecisionKind
  pub summary : String
  pub reads : List ReadRequest
  pub hypotheses : List RankedCause

abbrev pub nonempty {ℓ} : {A : Type ℓ} → List A → Bool
nonempty [] = false
nonempty (_ ∷ _) = true

-- `ReasoningDecision.coherent`, after the validators of the requests.
unfoldable pub coherent : ReasoningDecision → Result (Unit {0})
unfolding query_scopes
coherent d = do
  query_scopes d.reads
  raise_if ((d.decision == DecisionKind.read) != nonempty d.reads) value_error
  raise_if (d.decision != DecisionKind.finish && nonempty d.hypotheses) value_error
  raise_if (not (distinct d.reads)) value_error
  raise_if (not (distinct (map (λ (c : RankedCause). c.cause_code) d.hypotheses))) value_error

-- The hook `unique_keys`, which `json.loads` gives the pairs of each object.
abbrev pub add_unique :
    {V : Type 0} → List (String × V) → List (String × V) → Result (List (String × V))
add_unique result [] = ok result
add_unique result ((key, value) ∷ pairs) =
    if contains key (map (λ p. p.0) result)
    then err value_error
    else add_unique (result ++ (key, value) ∷ []) pairs

unfoldable pub unique_keys : {V : Type 0} → List (String × V) → Result (List (String × V))
unique_keys pairs = add_unique [] pairs

-- The loop of `parse_decision`: a cause and its citations against the submitted ids.
unfoldable pub resolve_cause : List String → List String → RankedCause → Result (Unit {0})
resolve_cause evidence_ids cause_codes c = do
  raise_if
      (not (contains c.cause_code cause_codes)
        || not (
            all (λ i. contains i evidence_ids) c.supporting_evidence_ids
            && all (λ i. contains i evidence_ids) c.refuting_evidence_ids))
      value_error
  raise_if
      (any (λ i. contains i c.refuting_evidence_ids) c.supporting_evidence_ids
        || not (distinct c.supporting_evidence_ids)
        || not (distinct c.refuting_evidence_ids))
      value_error

abbrev pub resolve_causes : List String → List String → List RankedCause → Result (Unit {0})
resolve_causes evidence_ids cause_codes [] = ok tt
resolve_causes evidence_ids cause_codes (c ∷ cs) =
    resolve_cause evidence_ids cause_codes c >> resolve_causes evidence_ids cause_codes cs

-- What `parse_decision` calls outside the repository: the length of a text in bytes of UTF-8, and
-- `json.loads` with pydantic's reading of the fields, before the validators of the source.
pub record Decoder : Type 0 where
  pub utf8_length : String → ℕ
  pub decode : String → Result ReasoningDecision

-- The validators of the decoded decision, and the loop over its causes.
abbrev pub accept_decision :
    List String → List String → ReasoningDecision → Result ReasoningDecision
accept_decision evidence_ids cause_codes result = do
  coherent result
  resolve_causes evidence_ids cause_codes result.hypotheses
  ok result

unfoldable pub parse_decision :
    Decoder → String → List String → List String → Result ReasoningDecision
unfolding coherent resolve_cause
parse_decision decoder content evidence_ids cause_codes = do
  raise_if (ltb 16384 (decoder.utf8_length content)) value_error
  result ← decoder.decode content
  accept_decision evidence_ids cause_codes result

-- `RootCauseHypothesis.model_validate`, over pydantic's `strip_whitespace`: each missing-evidence
-- text is a `Summary`, which is stripped and must not be empty then.
abbrev pub public_hypothesis : (String → String) → RankedCause → Result RootCauseHypothesis
public_hypothesis strip c =
    let missing = map strip c.missing_evidence in
    if contains "" missing
    then err value_error
    else ok (record {
      cause_code = c.cause_code;
      confidence = c.confidence;
      supporting_evidence_ids = c.supporting_evidence_ids;
      refuting_evidence_ids = c.refuting_evidence_ids;
      missing_evidence = missing;
    })

abbrev pub public_hypotheses :
    (String → String) → List RankedCause → Result (List RootCauseHypothesis)
public_hypotheses strip [] = ok []
public_hypotheses strip (c ∷ cs) = do
  h ← public_hypothesis strip c
  hs ← public_hypotheses strip cs
  ok (h ∷ hs)

-- `hypotheses`
unfoldable pub hypotheses :
    (String → String) → ReasoningDecision → Result (List RootCauseHypothesis)
hypotheses strip d =
    if d.decision != DecisionKind.finish
    then err value_error
    else public_hypotheses strip d.hypotheses

pub record ProviderUsage : Type 0 where
  pub input_tokens : ℕ
  pub output_tokens : ℕ
  pub total_tokens : ℕ
  pub cached_input_tokens : ℕ

-- `ProviderUsage.census`
unfoldable pub census : ProviderUsage → Result (Unit {0})
census u =
    raise_if
      (u.input_tokens + u.output_tokens != u.total_tokens
        || ltb u.input_tokens u.cached_input_tokens)
      value_error

pub record TextPrice : Type 0 where
  pub input_nano_usd : ℕ
  pub cached_input_nano_usd : ℕ
  pub output_nano_usd : ℕ

unfoldable pub TextPrice-discrete : Discrete TextPrice
TextPrice-discrete = hlevel ℕ_discrete

-- `TextPrice.cost_nano_usd`, on usage that `census` has passed.
unfoldable pub cost_nano_usd : TextPrice → Option ProviderUsage → Option ℕ
cost_nano_usd p none = none
cost_nano_usd p (some u) = some (
    (u.input_tokens - u.cached_input_tokens) * p.input_nano_usd
    + u.cached_input_tokens * p.cached_input_nano_usd
    + u.output_tokens * p.output_nano_usd)
