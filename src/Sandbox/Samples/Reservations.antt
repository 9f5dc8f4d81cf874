-- ===== src/Sandbox/Samples/Reservations.antt =====
-- What the reservations of src/payops/sandbox/runtime.py promise over any sequence of calls.
use pay_ops.Base.{
  ◌≤◌, String, Bool, true, false, ◌≡◌, ◌≢◌, refl, sym, ◌∙◌, subst, ap, Option, none, some, List, [],
  ◌∷◌, ◌!=◌, string_eq, leb, length, arith, Bool-cases, inl, inr, String_discrete, some_inj,
  ne-eq-false, if◌then◌else◌,
}
use pay_ops.Base.Result.{Result, ok, err, http}
use pay_ops.Base.Table.{
  find_row, set_row, find_row-set_row_self, find_row-set_row_ne, find_row-cons_ne,
  find_row-cons_self,
}
use pay_ops.Sandbox.Samples.{
  Sample, SimulationResult, Entry, SampleStore, remove_row, reserve_entry, reserve, complete_entry,
  complete, abandon,
}

length-set_row :
    (id : String) (e : Entry) (rows : List (String × Entry))
    → length (set_row id e rows) ≡ length rows
length-set_row id e [] = refl
length-set_row id e ((key, x) ∷ rows) = ground (arith, length-set_row id e rows)

length-remove_row_le :
    (id : String) (rows : List (String × Entry)) → length (remove_row id rows) ≤ length rows
length-remove_row_le id [] = omega arith
length-remove_row_le id ((key, x) ∷ rows) = ground (arith, length-remove_row_le id rows)

find_row-remove_row_ne :
    (id j : String) (rows : List (String × Entry))
    → id ≢ j
    → find_row j (remove_row id rows) ≡ find_row j rows
find_row-remove_row_ne id j [] n = refl
find_row-remove_row_ne id j ((key, x) ∷ rows) n =
    ground
      (arith, string_eq.beq_iff key id, string_eq.beq_iff key j, find_row-remove_row_ne id j rows n)

module _ (fingerprint : Sample → String) where
  -- One call of the store, by any task.
  pub data Call : SampleStore → SampleStore → Type 0 where
    reserved : (s : SampleStore) (sample : Sample) → Call s (reserve fingerprint sample s).1
    completed : (s : SampleStore) (id : String) (r : SimulationResult) → Call s (complete id r s).1
    abandoned : (s : SampleStore) (id : String) → Call s (abandon id s).1

  pub data Run (start : SampleStore) : SampleStore → Type 0 where
    here : Run start start
    next : {s t : SampleStore} → Run start s → Call s t → Run start t

  -- Calls that neither complete nor abandon sample `id`.
  pub data Spares (id : String) : SampleStore → SampleStore → Type 0 where
    reserved : (s : SampleStore) (sample : Sample) → Spares id s (reserve fingerprint sample s).1
    completed :
        (s : SampleStore) (j : String) (r : SimulationResult)
        → j ≢ id
        → Spares id s (complete j r s).1
    abandoned : (s : SampleStore) (j : String) → j ≢ id → Spares id s (abandon j s).1

  pub data SparingRun (id : String) (start : SampleStore) : SampleStore → Type 0 where
    here : SparingRun id start start
    next : {s t : SampleStore} → SparingRun id start s → Spares id s t → SparingRun id start t

  abbrev pub IsBounded : SampleStore → Type 0
  IsBounded s = length s.entries ≤ s.capacity

  reserve-IsBounded :
      (sample : Sample) (s : SampleStore) → IsBounded s → IsBounded (reserve fingerprint sample s).1
  unfolding reserve
  reserve-IsBounded sample s h = go (find_row sample.sample_id s.entries)
    where
      go : (o : Option Entry) → IsBounded (reserve_entry fingerprint sample o s).1
      go (some prior) = h
      go none = elim (Bool-cases (leb s.capacity (length s.entries))) [
        | inl full ↦ rw full h
        | inr free ↦ rw free (ground (arith, free))
      ]

  complete-IsBounded :
      (id : String) (r : SimulationResult) (s : SampleStore)
      → IsBounded s
      → IsBounded (complete id r s).1
  unfolding complete
  complete-IsBounded id r s h = go (find_row id s.entries)
    where
      go : (o : Option Entry) → IsBounded (complete_entry id r o s).1
      go none = h
      go (some (print, x)) = omega (arith, h, length-set_row id (print, some r) s.entries)

  abandon-IsBounded : (id : String) (s : SampleStore) → IsBounded s → IsBounded (abandon id s).1
  unfolding abandon
  abandon-IsBounded id s h = omega (arith, h, length-remove_row_le id s.entries)

  -- A store that holds no more than its capacity holds no more than its capacity after any calls.
  pub capacity-Run : {start s : SampleStore} → Run start s → IsBounded start → IsBounded s
  capacity-Run here h = h
  capacity-Run (next r (reserved s sample)) h = reserve-IsBounded sample s (capacity-Run r h)
  capacity-Run (next r (completed s id x)) h = complete-IsBounded id x s (capacity-Run r h)
  capacity-Run (next r (abandoned s id)) h = abandon-IsBounded id s (capacity-Run r h)

  abbrev pub IsHeld : String → Entry → SampleStore → Type 0
  IsHeld id e s = find_row id s.entries ≡ some e

  reserve-IsHeld :
      (id : String) (e : Entry) (sample : Sample) (s : SampleStore)
      → IsHeld id e s
      → IsHeld id e (reserve fingerprint sample s).1
  unfolding reserve
  reserve-IsHeld id e sample s h = go (find_row sample.sample_id s.entries) refl
    where
      go :
          (o : Option Entry)
          → find_row sample.sample_id s.entries ≡ o
          → find_row id (reserve_entry fingerprint sample o s).1.entries ≡ some e
      go (some prior) f = h
      go none f = elim (Bool-cases (leb s.capacity (length s.entries))) [
        | inl full ↦ rw full h
        | inr free ↦ rw free (elim (String_discrete sample.sample_id id) [
          | yes same ↦ absurd (cc (f, subst (λ i. find_row i s.entries ≡ some e) (sym same) h))
          | no n ↦ find_row-cons_ne sample.sample_id id (fingerprint sample, none) s.entries n ∙ h
        ])
      ]

  complete-IsHeld :
      (id j : String) (e : Entry) (r : SimulationResult) (s : SampleStore)
      → j ≢ id
      → IsHeld id e s
      → IsHeld id e (complete j r s).1
  unfolding complete
  complete-IsHeld id j e r s n h = go (find_row j s.entries)
    where
      go : (o : Option Entry) → find_row id (complete_entry j r o s).1.entries ≡ some e
      go none = h
      go (some (print, x)) = find_row-set_row_ne j id (print, some r) s.entries n ∙ h

  SparingRun-IsHeld :
      (id : String) (e : Entry) {start s : SampleStore}
      → SparingRun id start s
      → IsHeld id e start
      → IsHeld id e s
  unfolding abandon
  SparingRun-IsHeld id e here h = h
  SparingRun-IsHeld id e (next r (reserved s sample)) h =
      reserve-IsHeld id e sample s (SparingRun-IsHeld id e r h)
  SparingRun-IsHeld id e (next r (completed s j x n)) h =
      complete-IsHeld id j e x s n (SparingRun-IsHeld id e r h)
  SparingRun-IsHeld id e (next r (abandoned s j n)) h =
      find_row-remove_row_ne j id s.entries n ∙ SparingRun-IsHeld id e r h

  reserved-IsHeld :
      (sample : Sample) (s t : SampleStore)
      → reserve fingerprint sample s ≡ (ok none, t)
      → IsHeld sample.sample_id (fingerprint sample, none) t
  unfolding reserve
  reserved-IsHeld sample s t e = go (find_row sample.sample_id s.entries) e
    where
      replayed :
          (b : Bool) (r : SimulationResult)
          → ◌≡◌ {A = Result (Option SimulationResult) × SampleStore}
              (if b then err (http 409) else ok (some r), s)
              (ok none, t)
          → ⊥
      replayed true r e = cc
      replayed false r e = cc

      added :
          (b : Bool)
          → ◌≡◌ {A = Result (Option SimulationResult) × SampleStore}
              (if b then (err (http 503), s) else (
                ok none,
                record s { entries = (sample.sample_id, (fingerprint sample, none)) ∷ s.entries },
              ))
              (ok none, t)
          → IsHeld sample.sample_id (fingerprint sample, none) t
      added true e = absurd (cc)
      added false e =
          subst (IsHeld sample.sample_id (fingerprint sample, none)) (ap (λ x. x.1) e)
            (find_row-cons_self sample.sample_id (fingerprint sample, none) s.entries)

      go :
          (o : Option Entry)
          → reserve_entry fingerprint sample o s ≡ (ok none, t)
          → IsHeld sample.sample_id (fingerprint sample, none) t
      go (some (held, none)) e = absurd (cc)
      go (some (held, some r)) e = absurd (replayed (held != fingerprint sample) r e)
      go none e = added (leb s.capacity (length s.entries)) e

  completed-IsHeld :
      (id print : String) (r : SimulationResult) (u v : SampleStore)
      → IsHeld id (print, none) u
      → complete id r u ≡ (ok tt, v)
      → IsHeld id (print, some r) v
  unfolding complete
  completed-IsHeld id print r u v h e = go (find_row id u.entries) h e
    where
      go :
          (o : Option Entry)
          → o ≡ some (print, none)
          → complete_entry id r o u ≡ (ok tt, v)
          → IsHeld id (print, some r) v
      go none f e = absurd (cc)
      go (some (p, x)) f e = subst (IsHeld id (print, some r)) (ap (λ y. y.1) e) (
          rw (ap (λ (y : Entry). y.0) (some_inj f))
            (find_row-set_row_self id (print, some r) (print, none) u.entries h))

  ne_self : (x : String) → (x != x) ≡ false
  ne_self x = (ne-eq-false x x).1 refl

  -- While the task that reserved a sample has neither completed nor abandoned it, every other
  -- request with that sample id is refused with 409, whatever else it holds.
  pub reserve-exclusive :
      (sample sample' : Sample) (s t u : SampleStore)
      → reserve fingerprint sample s ≡ (ok none, t)
      → SparingRun sample.sample_id t u
      → sample'.sample_id ≡ sample.sample_id
      → (reserve fingerprint sample' u).0 ≡ err (http 409)
  unfolding reserve
  reserve-exclusive sample sample' s t u e run same =
      let held =
        SparingRun-IsHeld sample.sample_id (fingerprint sample, none) run
          (reserved-IsHeld sample s t e) in
      rw (subst (λ i. find_row i u.entries ≡ some (fingerprint sample, none)) (sym same) held) refl

  -- A completed sample is replayed: after any further calls that neither complete nor abandon it, at
  -- a full store too, the same request gets the recorded result and changes nothing.
  pub reserve-replayed :
      (sample : Sample) (r : SimulationResult) (s t u v w : SampleStore)
      → reserve fingerprint sample s ≡ (ok none, t)
      → SparingRun sample.sample_id t u
      → complete sample.sample_id r u ≡ (ok tt, v)
      → SparingRun sample.sample_id v w
      → reserve fingerprint sample w ≡ (ok (some r), w)
  unfolding reserve complete
  reserve-replayed sample r s t u v w e run done later =
      let held =
        SparingRun-IsHeld sample.sample_id (fingerprint sample, none) run
          (reserved-IsHeld sample s t e) in
      let stored : IsHeld sample.sample_id (fingerprint sample, some r) w =
        SparingRun-IsHeld sample.sample_id (fingerprint sample, some r) later
          (completed-IsHeld sample.sample_id (fingerprint sample) r u v held done) in
      rw (stored, ne_self (fingerprint sample)) refl
