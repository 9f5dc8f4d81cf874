-- ===== src/Memory/Incidents/Reports.antt =====
-- What `IncidentStore.save_report` of src/payops/memory/store.py promises to interleaved workers.
use pay_ops.Base.{
  String, false, ◌≡◌, ◌≢◌, refl, sym, ap, ◌∙◌, Option, none, some, [], ◌∷◌, Eq, ◌==◌, string_eq,
  any, arith, Bool-cases, some_inj, inl, inr,
}
use pay_ops.Base.Result.{Result, ok, err, ok_inj}
use pay_ops.Base.Table.{Codec}
use pay_ops.Contracts.{Incident}
use pay_ops.Memory.Incidents.{
  IncidentRow, Table, find_incident, decode_incident, row_matches, get_incident, decode_row,
}
use pay_ops.Memory.Incidents.Rows.{by_id}
use pay_ops.Memory.Incidents.Runs.{Run, Run-Stays}
use pay_ops.Memory.Incidents.Creation.{Kept, Stays-Kept}

module _ {Text : Type 0} ⦃text_eq : Eq Text⦄ (codec : Codec Incident Text) where
  -- Row `id` holds an incident that has its report.
  abbrev pub IsSettled : String → Table codec → Incident → Type 0
  IsSettled id rows i = (get_incident codec id rows ≡ ok (some i)) × (i.report ≢ none)

  pub get-found :
      (id : String) (rows : Table codec) (row : IncidentRow Text) (i : Incident)
      → find_incident codec id rows ≡ some row
      → decode_incident codec row ≡ ok i
      → get_incident codec id rows ≡ ok (some i)
  unfolding get_incident
  get-found id rows row i f d = rw (f, d) refl

  pub found-get :
      (id : String) (rows : Table codec) (i : Incident)
      → get_incident codec id rows ≡ ok (some i)
      → (row : IncidentRow Text) × (find_incident codec id rows ≡ some row)
        × (decode_incident codec row ≡ ok i)
  unfolding get_incident
  found-get id rows i e = go (find_incident codec id rows) refl e
    where
      of_row :
          (row : IncidentRow Text) (x : Result Incident)
          → decode_incident codec row ≡ x
          → decode_row codec (some row) ≡ ok (some i)
          → decode_incident codec row ≡ ok i
      of_row row (ok j) d e =
          let one : decode_row codec (some row) ≡ ok (some j) = rw d refl in
          d ∙ ap ok (some_inj (ok_inj (sym one ∙ e)))
      of_row row (err x) d e =
          let one : decode_row codec (some row) ≡ err x = rw d refl in absurd (cc (sym one ∙ e))

      go :
          (x : Option (IncidentRow Text))
          → find_incident codec id rows ≡ x
          → decode_row codec x ≡ ok (some i)
          → (row : IncidentRow Text) × (find_incident codec id rows ≡ some row)
            × (decode_incident codec row ≡ ok i)
      go none f e = absurd (cc)
      go (some row) f e = (row, f, of_row row (decode_incident codec row) refl e)

  -- A report that is there stays, and the whole incident with it.
  pub Run-IsSettled :
      {start rows : Table codec} (id : String) (i : Incident)
      → Run codec start rows
      → IsSettled id start i
      → IsSettled id rows i
  Run-IsSettled {start} {rows} id i run (got, closed) =
      let (row, f, d) = found-get id start i got in
      let (row', f', s) = Run-Stays codec (by_id id) row run f in
      let (j, d', kept) = Stays-Kept codec row row' i d s in go row' j f' d' kept
    where
      go :
          (row' : IncidentRow Text) (j : Incident)
          → find_incident codec id rows ≡ some row'
          → decode_incident codec row' ≡ ok j
          → Kept i j
          → IsSettled id rows i
      go row' j f' d' (inl e) = (get-found id rows row' i f' (d' ∙ ap ok e), closed)
      go row' j f' d' (inr (open_, _, _)) = absurd (closed open_)

  pub found_any :
      (id : String) (old : Text) (rows : Table codec) (row : IncidentRow Text)
      → find_incident codec id rows ≡ some row
      → any (row_matches codec id old) rows ≡ false
      → row_matches codec id old row ≡ false
  found_any id old [] row f n = absurd (cc)
  found_any id old (r ∷ rows) row f n = elim (Bool-cases (r.incident_id == id)) [
    | inl e ↦ ground (arith, e, f, n)
    | inr e ↦ found_any id old rows row (ground (arith, e, f)) (ground (arith, e, n))
  ]
