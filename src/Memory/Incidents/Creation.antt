-- ===== src/Memory/Incidents/Creation.antt =====
-- What `IncidentStore.create` of src/payops/memory/store.py promises to interleaved workers.
use pay_ops.Base.{
  String, Bool, true, false, ◌≡◌, refl, sym, ap, ◌∙◌, subst, Option, none, some, List, [], ◌∷◌, map,
  In, Eq, ◌==◌, string_eq, if◌then◌else◌, find, Time, arith, Bool-cases, ◌⊎◌, inl, inr,
}
use pay_ops.Base.Result.{ok, err, ok_inj, idempotency_conflict}
use pay_ops.Base.Table.{Codec}
use pay_ops.Contracts.{incident_valid, IncidentCreate, IncidentReport, Incident}
use pay_ops.Memory.Incidents.{
  IncidentRow, key_eq, new_incident, with_report, Table, find_incident, find_key, decode_incident,
  incident_taken, incident_row, create_incident, row_matches, set_payload, update_rows, previous,
  incident_create_eq, get_incident,
}
use pay_ops.Memory.Incidents.Rows.{
  by_id, by_key, selects, Stays, find-map_same, selects-set_payload, decode_parts, decode_from,
  read_incident-write,
}
use pay_ops.Memory.Incidents.Outcomes.{Created, create_incident-Created}
use pay_ops.Memory.Incidents.Runs.{
  Run, created, Step, unchanged, added, reported, Call-Step, Run-Stays, incident_row-unselected,
  new_incident-valid, here, next,
}

In-map :
    {A B : Type 0} (f : A → B) (xs : List A) (y : B)
    → In y (map f xs)
    → (x : A) × In x xs × (y ≡ f x)
In-map f [] y h = absurd h
In-map f (x ∷ xs) y (inl e) = (x, inl refl, e)
In-map f (x ∷ xs) y (inr h) = let (z, i, e) = In-map f xs y h in (z, inr i, e)

find-In : {A : Type 0} (p : A → Bool) (xs : List A) (x : A) → find p xs ≡ some x → In x xs
find-In p [] x h = absurd (cc)
find-In p (y ∷ ys) x h = elim (Bool-cases (p y)) [
  | inl e ↦ inl (ground (arith, e, h))
  | inr e ↦ inr (find-In p ys x (ground (arith, e, h)))
]

module _ {Text : Type 0} ⦃text_eq : Eq Text⦄ (codec : Codec Incident Text) where
  set_payload-id :
      (id : String) (old new : Text) (row : IncidentRow Text)
      → (set_payload codec id old new row).incident_id ≡ row.incident_id
  set_payload-id id old new row = elim (Bool-cases (row_matches codec id old row)) [
    | inl e ↦ rw e refl
    | inr e ↦ rw e refl
  ]

  -- Every row is the one that its identifier finds.
  abbrev pub IsIndexed : Table codec → Type 0
  IsIndexed rows =
      (row : IncidentRow Text) → In row rows → find_incident codec row.incident_id rows ≡ some row

  added-IsIndexed :
      (i : Incident) (key : Option String) (rows : Table codec)
      → incident_taken codec i.incident_id key rows ≡ false
      → IsIndexed rows
      → IsIndexed (incident_row codec i key ∷ rows)
  added-IsIndexed i key rows free v row (inl e) =
      rw e (rw ((string_eq.beq_iff i.incident_id i.incident_id).1 refl) refl)
  added-IsIndexed i key rows free v row (inr h) =
      let old = v row h in
      rw (incident_row-unselected codec (by_id row.incident_id) i key rows row old free) old

  reported-IsIndexed :
      (id : String) (old new : Text) (rows : Table codec)
      → IsIndexed rows
      → IsIndexed (update_rows codec id old new rows)
  reported-IsIndexed id old new rows v row h =
      let (before, inside, e) = In-map (set_payload codec id old new) rows row h in
      let changed = set_payload codec id old new before in
      rw e (
        find-map_same (selects codec (by_id changed.incident_id)) (set_payload codec id old new)
          rows before (selects-set_payload codec (by_id changed.incident_id) id old new)
          (subst (λ i. find_incident codec i rows ≡ some before)
            (sym (set_payload-id id old new before)) (v before inside)))

  pub Step-IsIndexed :
      {rows rows' : Table codec} → Step codec rows rows' → IsIndexed rows → IsIndexed rows'
  Step-IsIndexed unchanged v = v
  Step-IsIndexed {rows} (added i key _ free) v = added-IsIndexed i key rows free v
  Step-IsIndexed {rows} (reported id old i report _) v = reported-IsIndexed id old _ rows v

  pub Run-IsIndexed :
      {start rows : Table codec} → Run codec start rows → IsIndexed start → IsIndexed rows
  Run-IsIndexed here v = v
  Run-IsIndexed (next r c) v = Step-IsIndexed (Call-Step codec c) (Run-IsIndexed r v)

-- An incident as it was, or the same incident with its first report.
abbrev pub Kept : Incident → Incident → Type 0
Kept i j = (j ≡ i) ⊎ (i.report ≡ none) × (r : IncidentReport) × (j ≡ with_report i r)

pub Kept-request : (i j : Incident) → Kept i j → j.request ≡ i.request
Kept-request i j (inl e) = ap (λ (x : Incident). x.request) e
Kept-request i j (inr (_, r, e)) = ap (λ (x : Incident). x.request) e

module _ {Text : Type 0} ⦃text_eq : Eq Text⦄ (codec : Codec Incident Text) where
  pub Stays-Kept :
      (row row' : IncidentRow Text) (i : Incident)
      → decode_incident codec row ≡ ok i
      → Stays codec row row'
      → (j : Incident) × (decode_incident codec row' ≡ ok j) × Kept i j
  Stays-Kept row row' i d (inl e) =
      (i, subst (λ r. decode_incident codec r ≡ ok i) (sym e) d, inl refl)
  Stays-Kept row row' i d (inr r) =
      let one : r.entry ≡ i = ok_inj (sym r.stored ∙ d) in
      (
        with_report r.entry r.report,
        r.written,
        inr (
          subst (λ (x : Incident). x.report ≡ none) one r.unreported,
          r.report,
          ap (λ x. with_report x r.report) one,
        ),
      )

  incident_row-decode_incident :
      (i : Incident) (key : Option String)
      → incident_valid i ≡ ok tt
      → decode_incident codec (incident_row codec i key) ≡ ok i
  incident_row-decode_incident i key v =
      decode_from codec (incident_row codec i key) i (read_incident-write codec i v) refl

  -- The row of the incident that `create` returns.
  created_row :
      (request : IncidentCreate) (key : Option String) (id : String) (now : Time)
      (rows rows1 : Table codec) (i : Incident)
      → create_incident codec request key id now rows ≡ (ok i, rows1)
      → (row : IncidentRow Text) × (find_key codec key rows1 ≡ some row)
        × (decode_incident codec row ≡ ok i)
        × (i.request ≡ request)
  created_row request key id now rows rows1 i e = go (
      subst (Created codec (new_incident request id now) key rows) e
        (create_incident-Created codec request key id now rows))
    where
      go :
          Created codec (new_incident request id now) key rows (ok i, rows1)
          → (row : IncidentRow Text) × (find_key codec key rows1 ≡ some row)
            × (decode_incident codec row ≡ ok i)
            × (i.request ≡ request)
      go (inl (w, same_, free)) =
          rw (w, same_)
            (
              incident_row codec (new_incident request id now) key,
              rw ((key_eq.beq_iff key key).1 refl) refl,
              incident_row-decode_incident (new_incident request id now) key
                  (new_incident-valid codec request id now),
              refl,
            )
      go (inr (w, r)) = (r.row, rw w r.found, r.stored, r.same)

  -- An incident that `create` returns can be read by its identifier after any calls of any workers:
  -- it has the request that was given, and is as it was returned or has got its first report since.
  -- In the table that `create` is called on, every row is the one
  -- that its identifier finds.
  pub create-get_incident :
      (request : IncidentCreate) (key : Option String) (id : String) (now : Time)
      (rows rows1 rows2 : Table codec) (i : Incident)
      → IsIndexed codec rows
      → create_incident codec request key id now rows ≡ (ok i, rows1)
      → Run codec rows1 rows2
      → (j : Incident) × (get_incident codec i.incident_id rows2 ≡ ok (some j))
        × Kept i j
        × (j.request ≡ request)
  unfolding get_incident
  create-get_incident request key id now rows rows1 rows2 i v e run =
      let (row, found, stored, same) = created_row request key id now rows rows1 i e in
      let indexed =
        subst (λ x. IsIndexed codec x.1) e
          (Step-IsIndexed codec (Call-Step codec (created rows request key id now)) v) in
      let by =
        subst (λ x. find_incident codec x rows1 ≡ some row)
          (sym (decode_parts codec row i stored).1) (indexed row (find-In _ rows1 row found)) in
      let (row', found', s) = Run-Stays codec (by_id i.incident_id) row run by in
      let (j, stored', kept) = Stays-Kept row row' i stored s in
      (j, rw (found', stored') refl, kept, Kept-request i j kept ∙ same)

  -- A key belongs to the first request that is created with it: when a worker creates with the key
  -- again, after any calls of any workers, the call writes nothing, and it returns the incident that
  -- the first call returned, which may have got its report since, if the request is the same, and
  -- raises `IdempotencyConflict` otherwise.
  pub create_incident_once :
      (request request' : IncidentCreate) (key id id' : String) (now now' : Time)
      (rows rows1 rows2 : Table codec) (i : Incident)
      → create_incident codec request (some key) id now rows ≡ (ok i, rows1)
      → Run codec rows1 rows2
      → (j : Incident) × Kept i j
        × (create_incident codec request' (some key) id' now' rows2
            ≡ (if request == request' then ok j else err idempotency_conflict, rows2))
  unfolding create_incident
  create_incident_once request request' key id id' now now' rows rows1 rows2 i e run =
      let (row, found, stored, same) = created_row request (some key) id now rows rows1 i e in
      let (row', found', s) = Run-Stays codec (by_key key) row run found in
      let (j, stored', kept) = Stays-Kept row row' i stored s in
      (
        j,
        kept,
        rw (key_is_taken id' key rows2 row' found', found')
            (ap (λ x. (x, rows2))
              (previous_of request request' row' j stored' (Kept-request i j kept ∙ same))),
      )
    where
      key_is_taken :
          (id key : String) (rows : Table codec) (row : IncidentRow Text)
          → find_key codec (some key) rows ≡ some row
          → incident_taken codec id (some key) rows ≡ true
      key_is_taken id key rows row h = rw h (ground arith)

      previous_of :
          (request request' : IncidentCreate) (row : IncidentRow Text) (j : Incident)
          → decode_incident codec row ≡ ok j
          → j.request ≡ request
          → previous codec request' (some row)
            ≡ (if request == request' then ok j else err idempotency_conflict)
      previous_of request request' row j d e = elim (Bool-cases (request == request')) [
        | inl t ↦ rw (d, e, t) refl
        | inr t ↦ rw (d, e, t) refl
      ]
