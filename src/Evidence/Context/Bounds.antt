-- ===== src/Evidence/Context/Bounds.antt =====
-- What a model is shown by src/payops/evidence/context.py: verified evidence of its own incident,
-- within the budget of characters and items, with every omission counted.
use pay_ops.Base.{
  ℕ, suc, ◌+◌, ◌≤◌, ◌<◌, String, Bool, true, false, not, ◌||◌, ◌&&◌, ◌≡◌, refl, subst, ◌⊎◌, inl,
  inr, some, List, [], ◌∷◌, ◌++◌, map, ◌!=◌, string_eq, ltb, leb, length, length-append, distinct,
  In, All, arith, Bool-cases, ne-eq-false, if◌then◌else◌,
}
use pay_ops.Base.Result.{
  ok, integrity, value_error, raise_if, ◌>>=◌, >>=-eq-ok, raise_if-eq-ok, ok_inj,
}
use pay_ops.Contracts.{EvidenceItem}
use pay_ops.Evidence.Context.{
  ContextEntry, ReasoningContext, Sources, ordered, with_entry, bare, append_entry, check_items,
  collect_facts, facts_by_id, operational, fill, build_context,
}
use pay_ops.Evidence.Context.Sorting.{All-ordered, length-ordered}

-- Every item belongs to what it is a member of.
All-In :
    (xs ys : List EvidenceItem) → ((x : EvidenceItem) → In x xs → In x ys) → All (λ x. In x ys) xs
All-In [] ys h = tt
All-In (x ∷ xs) ys h = (h x (inl refl), All-In xs ys (λ y i. h y (inr i)))

module _ {Facts : Type 0} (sources : Sources Facts) where
  -- An item that may be shown.
  pub record IsVerified (evidence : List EvidenceItem) (incident_id : String) (item : EvidenceItem)
      : Type 0 where
    pub given : In item evidence
    pub own : item.incident_id ≡ incident_id
    pub verified : sources.verify_evidence item ≡ ok tt

  check_items-ok :
      (incident_id : String) (all items : List EvidenceItem)
      → All (λ x. In x all) items
      → check_items sources incident_id items ≡ ok tt
      → All (IsVerified all incident_id) items
  unfolding check_items
  check_items-ok incident_id all [] h e = tt
  check_items-ok incident_id all (item ∷ items) h e =
      let (u, own, e) = >>=-eq-ok (raise_if (item.incident_id != incident_id) integrity) _ e in
      let (v, verified, e) = >>=-eq-ok (sources.verify_evidence item) _ e in
      (
        record {
          given = h.0;
          own = (ne-eq-false item.incident_id incident_id).0 ((raise_if-eq-ok _ _).0 own);
          verified = verified;
        },
        check_items-ok incident_id all items h.1 e,
      )

  -- A context within its budget, of items that satisfy `P`, that has counted `total` items.
  pub record IsBuilt (P : EvidenceItem → Type 0) (max_characters max_items total : ℕ)
      (c : ReasoningContext Facts) : Type 0 where
    pub few : length c.entries ≤ max_items
    pub fits : (c.entries ≡ []) ⊎ (sources.json_length c ≤ max_characters)
    pub counted : length c.entries + c.omitted_count ≡ total
    pub shown : All (λ (e : ContextEntry Facts). P e.evidence) c.entries

  All-appended :
      (P : EvidenceItem → Type 0) (es : List (ContextEntry Facts)) (e : ContextEntry Facts)
      → All (λ (e : ContextEntry Facts). P e.evidence) es
      → P e.evidence
      → All (λ (e : ContextEntry Facts). P e.evidence) (es ++ e ∷ [])
  All-appended P [] e h p = (p, tt)
  All-appended P (x ∷ es) e h p = (h.0, All-appended P es e h.1 p)

  with_entry-IsBuilt :
      (P : EvidenceItem → Type 0) (k n total : ℕ) (c : ReasoningContext Facts)
      (e : ContextEntry Facts)
      → IsBuilt P k n total c
      → P e.evidence
      → length c.entries < n
      → 1 ≤ c.omitted_count
      → leb (sources.json_length (with_entry sources c e)) k ≡ true
      → IsBuilt P k n total (with_entry sources c e)
  with_entry-IsBuilt P k n total c e h p room left fits = record {
    few = omega (arith, room, length-append c.entries (e ∷ []));
    fits = inr (ground (arith, fits));
    counted = omega (arith, h.counted, left, length-append c.entries (e ∷ []));
    shown = All-appended P c.entries e h.shown p;
  }

  -- What `_append` does: one more entry, or nothing.
  append_entry-IsBuilt :
      (P : EvidenceItem → Type 0) (k n total : ℕ) (c : ReasoningContext Facts)
      (e : ContextEntry Facts)
      → IsBuilt P k n total c
      → P e.evidence
      → length c.entries < n
      → 1 ≤ c.omitted_count
      → IsBuilt P k n total (append_entry sources c e k)
        × (c.omitted_count ≤ suc (append_entry sources c e k).omitted_count)
  unfolding append_entry
  append_entry-IsBuilt P k n total c e h p room left =
      elim (Bool-cases (leb (sources.json_length (with_entry sources c e)) k)) [
        | inl full ↦ rw full (with_entry-IsBuilt P k n total c e h p room left full, omega arith)
        | inr over ↦
            rw over
              (elim (Bool-cases
                (leb (sources.json_length (with_entry sources c (bare sources e))) k)) [
                  | inl short ↦ rw short (
                    with_entry-IsBuilt P k n total c (bare sources e) h p room left short,
                    omega arith,
                  )
                  | inr long ↦ rw long (h, omega arith)
                ])
      ]

  fill-IsBuilt :
      (P : EvidenceItem → Type 0) (k n total : ℕ) (table : List (EvidenceItem × Facts))
      (items : List EvidenceItem) (c c' : ReasoningContext Facts)
      → IsBuilt P k n total c
      → All P items
      → length items ≤ c.omitted_count
      → fill sources k n table c items ≡ ok c'
      → IsBuilt P k n total c'
  unfolding fill
  fill-IsBuilt P k n total table [] c c' h ps left e = subst (IsBuilt P k n total) (ok_inj e) h
  fill-IsBuilt P k n total table (item ∷ items) c c' h ps left e =
      go (leb n (length c.entries)) refl e
        (λ d g l e'. fill-IsBuilt P k n total table items d c' g ps.1 l e')
    where
      go :
          (b : Bool)
          → leb n (length c.entries) ≡ b
          → (if b
              then ok c
              else (facts_by_id sources item.evidence_id table >>= λ facts.
                  fill sources k n table
                    (append_entry sources c
                      (record { evidence = item; facts = some facts; facts_omitted = false })
                      k)
                    items))
            ≡ ok c'
          → ((d : ReasoningContext Facts)
              → IsBuilt P k n total d
              → length items ≤ d.omitted_count
              → fill sources k n table d items ≡ ok c'
              → IsBuilt P k n total c')
          → IsBuilt P k n total c'
      go true b e rec = subst (IsBuilt P k n total) (ok_inj e) h
      go false b e rec =
          let (facts, found, e) = >>=-eq-ok (facts_by_id sources item.evidence_id table) _ e in
          let (g, l) =
            append_entry-IsBuilt P k n total c
              (record { evidence = item; facts = some facts; facts_omitted = false }) h ps.0
              (ground (arith, b)) (omega (arith, left)) in
          rec _ g (omega (arith, left, l)) e

  empty-IsBuilt :
      (P : EvidenceItem → Type 0) (k n total : ℕ)
      → IsBuilt P k n total (record { entries = []; omitted_count = total })
  empty-IsBuilt P k n total = record {
    few = omega arith;
    fits = inl refl;
    counted = omega arith;
    shown = tt;
  }

  -- A context of an incident's evidence, once it is built, holds verified items of that incident only,
  -- at most `max_items` of them; unless it is empty, its JSON is at most `max_characters` long; and its
  -- omitted count is exact.
  pub build_context-IsBuilt :
      (evidence : List EvidenceItem) (incident_id : String) (max_characters max_items : ℕ)
      (recent : Bool) (preferred : List String) (c : ReasoningContext Facts)
      → build_context sources evidence incident_id max_characters max_items recent preferred ≡ ok c
      → IsBuilt (IsVerified evidence incident_id) max_characters max_items (length evidence) c
  unfolding build_context
  build_context-IsBuilt evidence incident_id max_characters max_items recent preferred c e =
      let (_, _, e) =
        >>=-eq-ok
          (raise_if
            (not (leb 128 max_characters && leb max_characters 24000)
              || not (leb max_items 64)
              || ltb 256 (length evidence))
            value_error)
          _ e in
      let (_, _, e) =
        >>=-eq-ok
          (raise_if (not (distinct (map (λ (item : EvidenceItem). item.evidence_id) evidence)))
            integrity)
          _ e in
      let (_, checked, e) = >>=-eq-ok (check_items sources incident_id evidence) _ e in
      let (table, _, e) = >>=-eq-ok (collect_facts sources recent evidence) _ e in
      let signaled = if recent then sources.signaled (operational sources table) else [] in
      fill-IsBuilt (IsVerified evidence incident_id) max_characters max_items (length evidence)
        table (ordered sources.text_le recent preferred signaled evidence) _ c
        (empty-IsBuilt (IsVerified evidence incident_id) max_characters max_items (length evidence))
        (All-ordered (IsVerified evidence incident_id) sources.text_le recent preferred signaled
          evidence
          (check_items-ok incident_id evidence evidence (All-In evidence evidence (λ x i. i))
            checked))
        (omega (arith, length-ordered sources.text_le recent preferred signaled evidence)) e
