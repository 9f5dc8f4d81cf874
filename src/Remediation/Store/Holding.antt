-- ===== src/Remediation/Store/Holding.antt =====
-- The book that the tables of src/payops/remediation/store.py hold, and what lookups by key find in them.
use pay_ops.Base.Table.{Codec, find_row}
use pay_ops.Base.{
  ℕ, ◌+◌, ◌<◌, String, true, false, ◌≡◌, ◌≢◌, refl, sym, ap, ◌∙◌, subst, Option, none, some, List,
  [], ◌∷◌, Eq, ◌==◌, string_eq, nat_eq, arith, Bool-cases, Option-cases, some_inj, inl, inr,
}
use pay_ops.Base.Result.{ok}
use pay_ops.Base.Action.{Exec}
use pay_ops.Policy.Records.{Action, action_eq}
use pay_ops.Remediation.Records.{ActionState, action_state_eq, ActionRecord, validate_record}
use pay_ops.Remediation.Store.{
  AuditRow, Db, audited, history, get, create, transition, taken, current, read_record, get_row,
}
use pay_ops.Remediation.Store.Trail.{Trail}
use pay_ops.Remediation.Store.Trail
use pay_ops.Remediation.Store.Invariant.{IsValid, create-IsValid, transition-IsValid, trail_before}
use pay_ops.Remediation.Store.Book.{Book, Request, getting, creating, moving, entered, found}

-- The audit key of an action is looked up among the rows of that action.
audited-history :
    (id : String) (n : ℕ) (rows : List AuditRow)
    → audited id n rows ≡ audited id n (history id rows)
audited-history id n [] = refl
audited-history id n (row ∷ rows) = ground (arith, audited-history id n rows)

-- A trail that has come to revision `n` has no row of a later one.
audited-Trail :
    (id : String) (m : ℕ) {rows : List AuditRow} {s : ActionState} {n : ℕ}
    → Trail.Trail rows s n
    → n < m
    → audited id m rows ≡ false
audited-Trail id m (Trail.begun row e r) h = ground (arith, r, h)
audited-Trail id m (Trail.moved {n = n} row s' t legal e r) h =
    ground (arith, r, h, audited-Trail id m t (omega (arith, h)))

module _ {Text : Type 0} (codec : Codec ActionRecord Text) where
  -- The payload of each row is what the writer makes of the record in the book.
  abbrev payload_of : Option ActionRecord → Option Text
  payload_of none = none
  payload_of (some r) = some (codec.write r)

  abbrev pub Holds : Db Text → Book → Type 0
  Holds db book = (id : String) → find_row id db.actions ≡ payload_of (book id)

  pub entered-Holds :
      (r : ActionRecord) (db db' : Db Text) (book : Book)
      → Holds db book
      → find_row r.action_id db'.actions ≡ some (codec.write r)
      → ((j : String) → r.action_id ≢ j → find_row j db'.actions ≡ find_row j db.actions)
      → Holds db' (entered r book)
  entered-Holds r db db' book h here there j = elim (Bool-cases (r.action_id == j)) [
    | inl e ↦ rw e (
        subst (λ i. find_row i db'.actions ≡ some (codec.write r))
          ((string_eq.beq_iff r.action_id j).0 e) here)
    | inr e ↦ rw e (there j (λ k. ground (arith, e, string_eq.beq_iff r.action_id j, k)) ∙ h j)
  ]

module _ (digest : Action → String) where
  -- A client creates records that their validators have passed.
  abbrev pub IsAdmitted : Request → Type 0
  IsAdmitted (getting id) = Unit
  IsAdmitted (creating r) = validate_record digest r ≡ ok tt
  IsAdmitted (moving before state actor reason approval result now) = Unit

module _ {Text : Type 0} ⦃text_eq : Eq Text⦄ (digest : Action → String)
    (codec : Codec ActionRecord Text) where
  -- The same calls on the tables.
  unfoldable pub perform : Request → Exec (Db Text) ActionRecord
  perform (getting id) db = (get digest codec id db, db)
  perform (creating r) db = create digest codec r db
  perform (moving before state actor reason approval result now) db =
      transition digest codec before state actor reason approval result now db

  pub perform-IsValid :
      (request : Request) (db : Db Text)
      → IsAdmitted digest request
      → IsValid digest codec db
      → IsValid digest codec (perform request db).1
  unfolding perform
  perform-IsValid (getting id) db a v = v
  perform-IsValid (creating r) db a v = create-IsValid digest codec r db a v
  perform-IsValid (moving b s actor reason p e t) db a v =
      transition-IsValid digest codec b s actor reason p e t db v

  pub get-found :
      (id : String) (db : Db Text) (book : Book)
      → IsValid digest codec db
      → Holds codec db book
      → get digest codec id db ≡ found (book id)
  unfolding get read_record
  get-found id db book v h = elim (Option-cases (book id)) [
    | inl e ↦ rw (h id, e) refl
    | inr (r, e) ↦
        let row : find_row id db.actions ≡ some (codec.write r) = h id ∙ ap (payload_of codec) e in
        let b = v.backed id (codec.write r) row in
        let same : b.entry ≡ r = some_inj (sym b.stored ∙ codec.read-write r) in
        let valid : validate_record digest r ≡ ok tt =
          subst (λ (x : ActionRecord). validate_record digest x ≡ ok tt) same b.valid in
        let keyed : r.action_id ≡ id =
          subst (λ (x : ActionRecord). x.action_id ≡ id) same b.keyed in
        rw (row, e, codec.read-write r, valid, get_row, read_record)
          (ground (arith, keyed, string_eq.beq_iff r.action_id id))
  ]

  pub taken-Holds :
      (r : ActionRecord) (db : Db Text) (book : Book)
      → IsValid digest codec db
      → Holds codec db book
      → book r.action_id ≡ none
      → taken digest codec r db ≡ false
  taken-Holds r db book v h e =
      let missing : find_row r.action_id db.actions ≡ none =
        h r.action_id ∙ ap (payload_of codec) e in
      rw (missing, audited-history r.action_id r.revision db.audit, v.unaudited r.action_id missing)
        refl

  -- The audit key of a transition from the current record is free.
  pub next-is-free :
      (before : ActionRecord) (db : Db Text)
      → IsValid digest codec db
      → current digest codec before db ≡ true
      → audited before.action_id (before.revision + 1) db.audit ≡ false
  next-is-free before db v now =
      audited-history before.action_id (before.revision + 1) db.audit
      ∙ audited-Trail before.action_id (before.revision + 1)
          (trail_before digest codec before db v now) (omega arith)
