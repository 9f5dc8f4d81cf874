-- ===== src/Orchestrator/Usage.antt =====
-- `provider_usage` of src/payops/orchestrator/reasoning.py: token counts from the usage metadata of
-- a provider's message. A `Count` is at most ten million.
pub mod Acceptance
mod Tests
use pay_ops.Base.{
  ℕ, ◌≤◌, String, Bool, true, false, not, ◌&&◌, ◌||◌, ◌≡◌, refl, subst, Option, none, some, List,
  [], ◌∷◌, ◌==◌, ◌!=◌, string_eq, nat_eq, ltb, leb, any, contains, if◌then◌else◌, some_inj, arith,
}
use pay_ops.Base.Result.{
  Result, ok, err, value_error, key_error, raise_if, ◌>>=◌, ◌>>◌, >>=-eq-ok, ok_inj,
}
use pay_ops.Base.Json.{
  ℤ, pos, negsuc, Json, integer, object, Members, empty, member, lookup, has_key,
}
use pay_ops.Orchestrator.Reasoning.{ProviderUsage, census}

abbrev pub count_of : Json → Result ℕ
count_of (integer (pos n)) = if leb n 10000000 then ok n else err value_error
count_of _ = err value_error

abbrev pub counts_of : Members → Result (List (String × ℕ))
counts_of empty = ok []
counts_of (member key value rest) = do n ← count_of value; ns ← counts_of rest; ok ((key, n) ∷ ns)

abbrev pub counts_of_value : Json → Result (List (String × ℕ))
counts_of_value (object m) = counts_of m
counts_of_value _ = err value_error

-- `TypeAdapter(dict[str, Count]).validate_python(raw.get(key, {}))`
abbrev pub details_of : String → Members → Result (List (String × ℕ))
details_of key raw = if has_key key raw then counts_of_value (lookup key raw) else ok []

abbrev pub usage_fields : List String
usage_fields =
    "input_tokens" ∷ "output_tokens" ∷ "total_tokens" ∷ "input_token_details"
    ∷ "output_token_details" ∷ []

abbrev pub unknown_field : Members → Bool
unknown_field empty = false
unknown_field (member key value rest) = not (contains key usage_fields) || unknown_field rest

-- `details.get(key, 0)`
abbrev pub detail : String → List (String × ℕ) → ℕ
detail key [] = 0
detail key ((k, n) ∷ rest) = if k == key then n else detail key rest

abbrev pub other_category : String → List (String × ℕ) → Bool
other_category key details = any (λ (d : String × ℕ). d.1 != 0 && d.0 != key) details

-- `raw[key]`
abbrev pub required : String → Members → Result Json
required key raw = if has_key key raw then ok (lookup key raw) else err key_error

-- `ProviderUsage.model_validate`
abbrev pub read_usage : Json → Json → Json → ℕ → Result ProviderUsage
read_usage input output total cached = do
  i ← count_of input
  o ← count_of output
  t ← count_of total
  let usage : ProviderUsage = record {
    input_tokens = i;
    output_tokens = o;
    total_tokens = t;
    cached_input_tokens = cached;
  }
  census usage
  ok usage

abbrev pub raw_usage : Members → ℕ → Result ProviderUsage
raw_usage raw cached = do
  input ← required "input_tokens" raw
  output ← required "output_tokens" raw
  total ← required "total_tokens" raw
  read_usage input output total cached

abbrev pub usage_of : Members → Result ProviderUsage
usage_of raw = do
  raise_if (unknown_field raw) value_error
  details ← details_of "input_token_details" raw
  output_details ← details_of "output_token_details" raw
  raise_if (other_category "cache_read" details || other_category "reasoning" output_details)
      value_error
  usage ← raw_usage raw (detail "cache_read" details)
  raise_if (ltb usage.output_tokens (detail "reasoning" output_details)) value_error
  ok usage

-- `provider_usage`, by the message's usage metadata.
unfoldable pub provider_usage : Option Members → Result (Option ProviderUsage)
unfolding census
provider_usage none = ok none
provider_usage (some raw) = (usage_of raw >>= λ usage. ok (some usage))
