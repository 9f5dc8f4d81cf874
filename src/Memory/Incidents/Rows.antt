-- ===== src/Memory/Incidents/Rows.antt =====
-- Rows of the incident table of src/payops/memory/store.py under one insertion and one update.
use pay_ops.Base.{
  String, Bool, true, ◌≡◌, refl, sym, ap, ◌∙◌, subst, Option, none, some, List, [], ◌∷◌, map, Eq,
  ◌==◌, ◌!=◌, string_eq, find, arith, Bool-cases, ◌⊎◌, inl, inr, ne-eq-false,
}
use pay_ops.Base.Result.{ok, value_error, raise_if, raise_if-eq-ok, >>=-eq-ok, ok_inj}
use pay_ops.Base.Table.{Codec}
use pay_ops.Contracts.{incident_valid, IncidentReport, Incident}
use pay_ops.Memory.Incidents.{
  IncidentRow, key_eq, with_report, Table, read_incident, decode_incident, row_matches, set_payload,
  update_rows,
}

pub find-map_same :
    {A : Type 0} (p : A → Bool) (f : A → A) (xs : List A) (x : A)
    → ((y : A) → p (f y) ≡ p y)
    → find p xs ≡ some x
    → find p (map f xs) ≡ some (f x)
find-map_same p f [] x same h = cc
find-map_same p f (y ∷ ys) x same h = ground (arith, same y, find-map_same p f ys x same)

pub find_test : {A : Type 0} (p : A → Bool) (xs : List A) (x : A) → find p xs ≡ some x → p x ≡ true
find_test p [] x h = cc
find_test p (y ∷ ys) x h = elim (Bool-cases (p y)) [
  | inl e ↦ ground (arith, e, h)
  | inr e ↦ find_test p ys x (ground (arith, e, h))
]

-- The two ways to look a row up: by primary key, or by an ingestion key that is not NULL.
pub data Lookup : Type 0 where
  by_id by_key : String → Lookup

module _ {Text : Type 0} ⦃text_eq : Eq Text⦄ (codec : Codec Incident Text) where
  abbrev pub selects : Lookup → IncidentRow Text → Bool
  selects (by_id id) row = row.incident_id == id
  selects (by_key key) row = row.idempotency_key == some key

  abbrev pub look_up : Lookup → Table codec → Option (IncidentRow Text)
  look_up l = find (selects l)

  pub selects-set_payload :
      (l : Lookup) (id : String) (old new : Text) (row : IncidentRow Text)
      → selects l (set_payload codec id old new row) ≡ selects l row
  selects-set_payload (by_id i) id old new row = ground arith
  selects-set_payload (by_key k) id old new row = ground arith

  -- A row that has been updated with a first report.
  pub record Reported (row row' : IncidentRow Text) : Type 0 where
    pub entry : Incident
    pub report : IncidentReport
    pub stored : decode_incident codec row ≡ ok entry
    pub unreported : entry.report ≡ none
    pub written : decode_incident codec row' ≡ ok (with_report entry report)
    pub same_id : row'.incident_id ≡ row.incident_id

  abbrev pub Stays : IncidentRow Text → IncidentRow Text → Type 0
  Stays row row' = (row' ≡ row) ⊎ Reported row row'

  pub Stays-trans : {a b c : IncidentRow Text} → Stays a b → Stays b c → Stays a c
  Stays-trans {a} {c = c} (inl e) s = subst (λ r. Stays r c) e s
  Stays-trans {a} (inr r) (inl e) = subst (Stays a) (sym e) (inr r)
  Stays-trans (inr r) (inr r') =
      absurd
        (cc (ap (λ (i : Incident). i.report) (ok_inj (sym r.written ∙ r'.stored)), r'.unreported))

  -- What an update that publishes a report relies on: the old payload holds an incident that has no
  -- report, and the new one is valid.
  pub record Publishes (id : String) (old : Text) (before : Incident) (report : IncidentReport)
      : Type 0 where
    pub stored : read_incident codec old ≡ ok before
    pub same_id : before.incident_id ≡ id
    pub unreported : before.report ≡ none
    pub valid : incident_valid (with_report before report) ≡ ok tt

  pub decode_parts :
      (row : IncidentRow Text) (i : Incident)
      → decode_incident codec row ≡ ok i
      → (read_incident codec row.payload ≡ ok i) × (i.incident_id ≡ row.incident_id)
  unfolding decode_incident
  decode_parts row i e =
      let (x, read, e) = >>=-eq-ok (read_incident codec row.payload) _ e in
      let (_, same, e) = >>=-eq-ok (raise_if (x.incident_id != row.incident_id) value_error) _ e in
      let one = ok_inj e in
      (
        subst (λ y. read_incident codec row.payload ≡ ok y) one read,
        subst (λ (y : Incident). y.incident_id ≡ row.incident_id) one
            ((ne-eq-false x.incident_id row.incident_id).0 ((raise_if-eq-ok _ _).0 same)),
      )

  pub decode_from :
      (row : IncidentRow Text) (i : Incident)
      → read_incident codec row.payload ≡ ok i
      → i.incident_id ≡ row.incident_id
      → decode_incident codec row ≡ ok i
  unfolding decode_incident
  decode_from row i read same = rw (read, (ne-eq-false i.incident_id row.incident_id).1 same) refl

  pub read_incident-write :
      (i : Incident) → incident_valid i ≡ ok tt → read_incident codec (codec.write i) ≡ ok i
  unfolding read_incident
  read_incident-write i v = rw (codec.read-write i, v, read_incident) refl

  set_payload-Stays :
      (id : String) (old : Text) (before : Incident) (report : IncidentReport)
      (row : IncidentRow Text)
      → Publishes id old before report
      → Stays row (set_payload codec id old (codec.write (with_report before report)) row)
  set_payload-Stays id old before report row p = elim (Bool-cases (row_matches codec id old row)) [
    | inr other ↦ rw other (inl refl)
    | inl here ↦
        let (at_id, at_old) : (row.incident_id ≡ id) × (row.payload ≡ old) =
          ground
            (arith, here, string_eq.beq_iff row.incident_id id, text_eq.beq_iff row.payload old) in
        rw here (
          inr (record {
            entry = before;
            report = report;
            stored =
                decode_from row before
                  (subst (λ t. read_incident codec t ≡ ok before) (sym at_old) p.stored)
                  (p.same_id ∙ sym at_id);
            unreported = p.unreported;
            written =
                decode_from _ (with_report before report)
                  (read_incident-write (with_report before report) p.valid) (p.same_id ∙ sym at_id);
            same_id = refl;
          }))
  ]

  pub update_rows-Stays :
      (l : Lookup) (id : String) (old : Text) (before : Incident) (report : IncidentReport)
      (rows : Table codec) (row : IncidentRow Text)
      → Publishes id old before report
      → look_up l rows ≡ some row
      → (row' : IncidentRow Text) × (look_up l
            (update_rows codec id old (codec.write (with_report before report)) rows)
          ≡ some row')
        × Stays row row'
  update_rows-Stays l id old before report rows row p h = (
    _,
    find-map_same (selects l) (set_payload codec id old (codec.write (with_report before report)))
        rows row (selects-set_payload l id old (codec.write (with_report before report))) h,
    set_payload-Stays id old before report row p,
  )
