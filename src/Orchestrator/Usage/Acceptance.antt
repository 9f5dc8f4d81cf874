-- ===== src/Orchestrator/Usage/Acceptance.antt =====
-- Which usage metadata `provider_usage` of src/payops/orchestrator/reasoning.py accepts, and as what.
use pay_ops.Base.{
  ℕ, ◌+◌, ◌≤◌, String, true, false, ◌||◌, ◌&&◌, ◌≡◌, ◌↔◌, refl, sym, ap, subst, some, List, [], ◌∷◌,
  ◌!=◌, string_eq, nat_eq, ltb, leb, contains_iff, In, All, All-map_iff, any-eq-false, arith,
  Bool-cases, inl, inr, ◌⊎◌, some_inj, iff_trans, or-eq-false,
}
use pay_ops.Base.Result.{ok, err, value_error, raise_if, raise_if-eq-ok, >>=-eq-ok, ok_inj}
use pay_ops.Base.Json.{
  pos, negsuc, Json, null, boolean, integer, real, text, array, object, Members, empty, member,
  lookup, has_key,
}
use pay_ops.Orchestrator.Reasoning.{ProviderUsage, census}
use pay_ops.Orchestrator.Usage.{
  count_of, counts_of, counts_of_value, details_of, usage_fields, unknown_field, detail,
  other_category, required, read_usage, raw_usage, usage_of, provider_usage,
}

-- A value that is a count of tokens.
abbrev pub IsCount : Json → ℕ → Type 0
IsCount value n = (value ≡ integer (pos n)) × (n ≤ 10000000)

abbrev pub AreCounts : Members → List (String × ℕ) → Type 0
AreCounts empty [] = Unit
AreCounts (member key value rest) ((k, n) ∷ ns) = (key ≡ k) × IsCount value n × AreCounts rest ns
AreCounts _ _ = ⊥

-- The details under a key, of which a missing one has none.
abbrev pub HasDetails : String → Members → List (String × ℕ) → Type 0
HasDetails key raw ds =
    (has_key key raw ≡ false) × (ds ≡ [])
    ⊎ (m : Members) × (lookup key raw ≡ object m) × AreCounts m ds

abbrev pub HasKnownFields : Members → Type 0
HasKnownFields empty = Unit
HasKnownFields (member key value rest) = In key usage_fields × HasKnownFields rest

-- Every category but the named one is empty.
abbrev pub IsOnly : String → List (String × ℕ) → Type 0
IsOnly key ds = All (λ (d : String × ℕ). (d.0 ≡ key) ⊎ (d.1 ≡ 0)) ds

pub record IsUsage (raw : Members) (u : ProviderUsage) : Type 0 where
  pub known : HasKnownFields raw
  pub input : IsCount (lookup "input_tokens" raw) u.input_tokens
  pub output : IsCount (lookup "output_tokens" raw) u.output_tokens
  pub total : IsCount (lookup "total_tokens" raw) u.total_tokens
  pub details : List (String × ℕ)
  pub output_details : List (String × ℕ)
  pub has_details : HasDetails "input_token_details" raw details
  pub has_output_details : HasDetails "output_token_details" raw output_details
  pub only_cache : IsOnly "cache_read" details
  pub only_reasoning : IsOnly "reasoning" output_details
  pub cached : u.cached_input_tokens ≡ detail "cache_read" details
  pub reasoning : detail "reasoning" output_details ≤ u.output_tokens
  pub summed : u.input_tokens + u.output_tokens ≡ u.total_tokens
  pub cached_part : u.cached_input_tokens ≤ u.input_tokens

count_of_iff : (value : Json) (n : ℕ) → (count_of value ≡ ok n) ↔ IsCount value n
count_of_iff (integer (pos m)) n = elim (Bool-cases (leb m 10000000)) [
  | inl e ↦
      rw e
        (λ h. (ap (λ k. integer (pos k)) (ok_inj h), within e (ok_inj h)), λ h. ap ok (pos_inj h.0))
  | inr e ↦ rw e (λ h. absurd (cc), λ h. beyond e (pos_inj h.0) h.1)
]
  where
    pos_inj : {a b : ℕ} → ◌≡◌ {A = Json} (integer (pos a)) (integer (pos b)) → a ≡ b
    pos_inj h = cc

    within : leb m 10000000 ≡ true → m ≡ n → n ≤ 10000000
    within e h = ground (arith, e, h)

    beyond : leb m 10000000 ≡ false → m ≡ n → n ≤ 10000000 → err value_error ≡ ok n
    beyond e h b = ground (arith, e, h, b)
count_of_iff (integer (negsuc m)) n = (λ h. absurd (cc), λ h. absurd (cc (h.0)))
count_of_iff null n = (λ h. absurd (cc), λ h. absurd (cc (h.0)))
count_of_iff (boolean x) n = (λ h. absurd (cc), λ h. absurd (cc (h.0)))
count_of_iff (real x) n = (λ h. absurd (cc), λ h. absurd (cc (h.0)))
count_of_iff (text x) n = (λ h. absurd (cc), λ h. absurd (cc (h.0)))
count_of_iff (array x) n = (λ h. absurd (cc), λ h. absurd (cc (h.0)))
count_of_iff (object x) n = (λ h. absurd (cc), λ h. absurd (cc (h.0)))

counts_of_iff : (m : Members) (ds : List (String × ℕ)) → (counts_of m ≡ ok ds) ↔ AreCounts m ds
counts_of_iff empty [] = (λ h. tt, λ h. refl)
counts_of_iff empty (d ∷ ds) = (λ h. absurd (cc), λ h. absurd h)
counts_of_iff (member key value rest) [] = (
  λ h.
      let (n, _, h) = >>=-eq-ok (count_of value) _ h in
      let (ns, _, h) = >>=-eq-ok (counts_of rest) _ h in absurd (cc (ok_inj h)),
  λ h. absurd h,
)
counts_of_iff (member key value rest) ((k, n) ∷ ns) = (
  λ h.
      let (n', a, h) = >>=-eq-ok (count_of value) _ h in
      let (ns', c, h) = >>=-eq-ok (counts_of rest) _ h in
      let same = ok_inj h in
      (cc same, (count_of_iff value n).0 (cc (a, same)), (counts_of_iff rest ns).0 (cc (c, same))),
  λ h. rw ((count_of_iff value n).1 h.1, (counts_of_iff rest ns).1 h.2, h.0) refl,
)

unknown_field_iff : (raw : Members) → (unknown_field raw ≡ false) ↔ HasKnownFields raw
unknown_field_iff empty = (λ h. tt, λ h. refl)
unknown_field_iff (member key value rest) =
    ground (arith, contains_iff key usage_fields, unknown_field_iff rest)

lookup_missing : (key : String) (raw : Members) → has_key key raw ≡ false → lookup key raw ≡ null
lookup_missing key empty h = refl
lookup_missing key (member k value rest) h = ground (arith, lookup_missing key rest, h)

counts_of_value_iff :
    (value : Json) (ds : List (String × ℕ))
    → (counts_of_value value ≡ ok ds) ↔ (m : Members) × (value ≡ object m) × AreCounts m ds
counts_of_value_iff (object m) ds = (
  λ h. (m, refl, (counts_of_iff m ds).0 h),
  λ (m', e, c). subst (λ x. counts_of x ≡ ok ds) (object_inj e) ((counts_of_iff m' ds).1 c),
)
  where
    object_inj : {a b : Members} → object b ≡ object a → a ≡ b
    object_inj h = cc
counts_of_value_iff null ds = (λ h. absurd (cc), λ h. absurd (cc (h.1)))
counts_of_value_iff (boolean x) ds = (λ h. absurd (cc), λ h. absurd (cc (h.1)))
counts_of_value_iff (integer x) ds = (λ h. absurd (cc), λ h. absurd (cc (h.1)))
counts_of_value_iff (real x) ds = (λ h. absurd (cc), λ h. absurd (cc (h.1)))
counts_of_value_iff (text x) ds = (λ h. absurd (cc), λ h. absurd (cc (h.1)))
counts_of_value_iff (array x) ds = (λ h. absurd (cc), λ h. absurd (cc (h.1)))

details_of_iff :
    (key : String) (raw : Members) (ds : List (String × ℕ))
    → (details_of key raw ≡ ok ds) ↔ HasDetails key raw ds
details_of_iff key raw ds = elim (Bool-cases (has_key key raw)) [
  | inl here ↦ rw here (
    λ h. inr ((counts_of_value_iff (lookup key raw) ds).0 h),
    λ h. elim h [
      | inl a ↦ absurd (cc (a.0))
      | inr a ↦ (counts_of_value_iff (lookup key raw) ds).1 a
    ],
  )
  | inr gone ↦ rw gone (
    λ h. inl (refl, sym (ok_inj h)),
    λ h. elim h [
      | inl a ↦ ap ok (sym a.1)
      | inr a ↦ absurd (cc (lookup_missing key raw gone, a.1))
    ],
  )
]

other_category_iff :
    (key : String) (ds : List (String × ℕ)) → (other_category key ds ≡ false) ↔ IsOnly key ds
other_category_iff key ds =
    iff_trans (any-eq-false (λ (d : String × ℕ). d.1 != 0 && d.0 != key) ds)
      (All-map_iff ds (λ d. ground (arith, string_eq.beq_iff d.0 key)))

required-eq-ok :
    (key : String) (raw : Members) (value : Json)
    → required key raw ≡ ok value
    → lookup key raw ≡ value
required-eq-ok key raw value h = ground (arith, h)

required_count :
    (key : String) (raw : Members) (n : ℕ)
    → IsCount (lookup key raw) n
    → required key raw ≡ ok (lookup key raw)
required_count key raw n c = elim (Bool-cases (has_key key raw)) [
  | inl here ↦ rw here refl
  | inr gone ↦ absurd (cc (lookup_missing key raw gone, c.0))
]

census_iff :
    (u : ProviderUsage)
    → (census u ≡ ok tt)
      ↔ (u.input_tokens + u.output_tokens ≡ u.total_tokens)
        × (u.cached_input_tokens ≤ u.input_tokens)
unfolding census
census_iff u = ground arith

-- The four counts of a usage, where `cached` is the cached input.
abbrev HasCounts : Json → Json → Json → ℕ → ProviderUsage → Type 0
HasCounts input output total cached u =
    IsCount input u.input_tokens
    × IsCount output u.output_tokens
    × IsCount total u.total_tokens
    × (u.cached_input_tokens ≡ cached)
    × (census u ≡ ok tt)

read_usage-HasCounts :
    (input output total : Json) (cached : ℕ) (u : ProviderUsage)
    → read_usage input output total cached ≡ ok u
    → HasCounts input output total cached u
read_usage-HasCounts input output total cached u e =
    let (i, a, e) = >>=-eq-ok (count_of input) _ e in
    let (o, b, e) = >>=-eq-ok (count_of output) _ e in
    let (t, c, e) = >>=-eq-ok (count_of total) _ e in
    let v : ProviderUsage = record {
      input_tokens = i;
      output_tokens = o;
      total_tokens = t;
      cached_input_tokens = cached;
    } in
    let (_, d, e) = >>=-eq-ok (census v) (λ _. ok v) e in
    subst (HasCounts input output total cached) (ok_inj e)
      ((count_of_iff input i).0 a, (count_of_iff output o).0 b, (count_of_iff total t).0 c, refl, d)

raw_usage_iff :
    (raw : Members) (cached : ℕ) (u : ProviderUsage)
    → (raw_usage raw cached ≡ ok u)
      ↔ HasCounts
          (lookup "input_tokens" raw)
          (lookup "output_tokens" raw)
          (lookup "total_tokens" raw)
          cached
          u
raw_usage_iff raw cached u = (
  λ e.
      let (input, a, e) = >>=-eq-ok (required "input_tokens" raw) _ e in
      let (output, b, e) = >>=-eq-ok (required "output_tokens" raw) _ e in
      let (total, c, e) = >>=-eq-ok (required "total_tokens" raw) _ e in
      rw
        (
          required-eq-ok "input_tokens" raw input a,
          required-eq-ok "output_tokens" raw output b,
          required-eq-ok "total_tokens" raw total c,
        )
        (read_usage-HasCounts input output total cached u e),
  λ (i, o, t, c, whole).
      rw
        (
          required_count "input_tokens" raw u.input_tokens i,
          required_count "output_tokens" raw u.output_tokens o,
          required_count "total_tokens" raw u.total_tokens t,
          (count_of_iff (lookup "input_tokens" raw) u.input_tokens).1 i,
          (count_of_iff (lookup "output_tokens" raw) u.output_tokens).1 o,
          (count_of_iff (lookup "total_tokens" raw) u.total_tokens).1 t,
          sym c,
          whole,
        )
        refl,
)

usage_of-IsUsage : (raw : Members) (u : ProviderUsage) → usage_of raw ≡ ok u → IsUsage raw u
usage_of-IsUsage raw u e =
    let (_, known, e) = >>=-eq-ok (raise_if (unknown_field raw) value_error) _ e in
    let (details, found, e) = >>=-eq-ok (details_of "input_token_details" raw) _ e in
    let (output_details, found', e) = >>=-eq-ok (details_of "output_token_details" raw) _ e in
    let (_, only, e) =
      >>=-eq-ok
        (raise_if (other_category "cache_read" details || other_category "reasoning" output_details)
          value_error)
        _ e in
    let (v, counts, e) = >>=-eq-ok (raw_usage raw (detail "cache_read" details)) _ e in
    let (_, fits, e) =
      >>=-eq-ok (raise_if (ltb v.output_tokens (detail "reasoning" output_details)) value_error) _
        e in
    let (i, o, t, c, whole) = (raw_usage_iff raw (detail "cache_read" details) v).0 counts in
    let (left, right) = (or-eq-false _ _).0 ((raise_if-eq-ok _ _).0 only) in
    let (summed, part) = (census_iff v).0 whole in
    subst (IsUsage raw) (ok_inj e) (record {
      known = (unknown_field_iff raw).0 ((raise_if-eq-ok _ _).0 known);
      input = i;
      output = o;
      total = t;
      details = details;
      output_details = output_details;
      has_details = (details_of_iff "input_token_details" raw details).0 found;
      has_output_details = (details_of_iff "output_token_details" raw output_details).0 found';
      only_cache = (other_category_iff "cache_read" details).0 left;
      only_reasoning = (other_category_iff "reasoning" output_details).0 right;
      cached = c;
      reasoning = ground (arith, (raise_if-eq-ok _ _).0 fits);
      summed = summed;
      cached_part = part;
    })

IsUsage-usage_of : (raw : Members) (u : ProviderUsage) → IsUsage raw u → usage_of raw ≡ ok u
IsUsage-usage_of raw u h =
    rw
      (
        (unknown_field_iff raw).1 h.known,
        (details_of_iff "input_token_details" raw h.details).1 h.has_details,
        (details_of_iff "output_token_details" raw h.output_details).1 h.has_output_details,
        (other_category_iff "cache_read" h.details).1 h.only_cache,
        (other_category_iff "reasoning" h.output_details).1 h.only_reasoning,
        (raw_usage_iff raw (detail "cache_read" h.details) u).1
            (h.input, h.output, h.total, h.cached, (census_iff u).1 (h.summed, h.cached_part)),
      )
      (ground (arith, h.reasoning))

-- A message's usage metadata is accepted exactly as the counts that it states: it has no field beyond
-- the five known ones, its input, output and total are counts of at most ten million whose sum agrees,
-- its details are counts too, of which all but cache reads of the input and reasoning in the output
-- are zero, the cached input is the cache reads and no more than the input, and the reasoning is no
-- more than the output.
pub provider_usage_iff :
    (raw : Members) (u : ProviderUsage) → (provider_usage (some raw) ≡ ok (some u)) ↔ IsUsage raw u
unfolding provider_usage
provider_usage_iff raw u = (
  λ e.
      let (v, found, e) = >>=-eq-ok (usage_of raw) (λ usage. ok (some usage)) e in
      subst (IsUsage raw) (some_inj (ok_inj e)) (usage_of-IsUsage raw v found),
  λ h. rw (IsUsage-usage_of raw u h) refl,
)
