-- ===== src/Remediation/Store/Refinement.antt =====
-- `ActionStore` of src/payops/remediation/store.py implements the book of its records.
use pay_ops.Base.Table.{
  Codec, set_row, find_row-set_row_self, find_row-set_row_ne, find_row-cons_ne, find_row-cons_self,
}
use pay_ops.Base.{
  String, false, not, ◌||◌, ◌≡◌, refl, sym, ap, ◌∙◌, Option, List, [], ◌∷◌, Eq, ◌==◌, ◌!=◌,
  string_eq, nat_eq, contains, Time, arith, Bool-cases, Option-cases, some_inj, inl, inr, All,
}
use mathlib.Core.Path.{ap₂}
use pay_ops.Base.Result.{Result, ok, err}
use pay_ops.Policy.Records.{Action, action_eq}
use pay_ops.Remediation.Records.{
  ActionState, action_state_eq, Approval, EffectReceipt, ActionRecord, validate_record, is_proposed,
}
use pay_ops.Remediation.Store.{
  Db, transitions, moved, create, transition, current, audit_row, publish_valid, commit_new,
}
use pay_ops.Remediation.Store.Invariant.{IsValid, current_row}
use pay_ops.Remediation.Store.Book.{
  Book, Request, getting, creating, moving, is_held, moved_in, answer, run_all,
}
use pay_ops.Remediation.Store.Holding.{
  Holds, IsAdmitted, entered-Holds, perform, perform-IsValid, get-found, taken-Holds, next-is-free,
}

module _ {Text : Type 0} ⦃text_eq : Eq Text⦄ ⦃record_eq : Eq ActionRecord⦄
    (digest : Action → String) (codec : Codec ActionRecord Text) where
  -- One call on the tables and on the book: the same answer, and the tables still hold the book.
  abbrev Agrees : Result ActionRecord × Db Text → Result ActionRecord × Book → Type 0
  Agrees (x, db) (y, book) = (x ≡ y) × Holds codec db book

  create-Agrees :
      (r : ActionRecord) (db : Db Text) (book : Book)
      → IsValid digest codec db
      → Holds codec db book
      → Agrees (create digest codec r db) (answer digest (creating r) book)
  unfolding create answer
  create-Agrees r db book v h = elim (Bool-cases (not (is_proposed r.state) || r.revision != 0)) [
    | inl refused ↦ rw refused (refl, h)
    | inr fresh ↦ rw fresh (elim (Option-cases (book r.action_id)) [
      | inl e ↦
          rw (e, taken-Holds digest codec r db book v h e)
            (
              refl,
              entered-Holds codec r db (commit_new digest codec r false db).1 book h
                  (find_row-cons_self r.action_id (codec.write r) db.actions)
                  (λ j n. find_row-cons_ne r.action_id j (codec.write r) db.actions n),
            )
      | inr (first, e) ↦
          rw (h r.action_id, e, get-found digest codec r.action_id db book v h, e) (refl, h)
    ])
  ]

  -- The comparison of payloads in the update is the comparison of records in the book.
  current-Holds :
      (before : ActionRecord) (db : Db Text) (book : Book)
      → Holds codec db book
      → current digest codec before db ≡ is_held digest before (book before.action_id)
  current-Holds before db book h = elim (Option-cases (book before.action_id)) [
    | inl e ↦ rw (current, h before.action_id, e) refl
    | inr (r, e) ↦
        rw (current, h before.action_id, e)
          (elim (Bool-cases (r == before)) [
            | inl same ↦
                rw same
                  ((text_eq.beq_iff _ _).1 (ap codec.write ((record_eq.beq_iff r before).0 same)))
            | inr other ↦ elim (Bool-cases (codec.write r == codec.write before)) [
              | inl k ↦ absurd (
                  ground (
                    arith,
                    other,
                    record_eq.beq_iff r before,
                    some_inj (
                        sym (codec.read-write r)
                        ∙ ap codec.read ((text_eq.beq_iff _ _).0 k)
                        ∙ codec.read-write before),
                  ))
              | inr k ↦ rw (other, k) refl
            ]
          ])
  ]

  publish-Agrees :
      (before : ActionRecord) (state : ActionState) (actor reason : String)
      (approval : Option Approval) (result : Option EffectReceipt) (now : Time) (db : Db Text)
      (book : Book) (c : Result (Unit {0}))
      → IsValid digest codec db
      → Holds codec db book
      → Agrees
          (publish_valid digest codec c before
            (moved before state approval result now)
            actor
            reason
            db)
          (moved_in digest c before (moved before state approval result now) book)
  publish-Agrees before state actor reason approval result now db book (err e) v h = (refl, h)
  publish-Agrees before state actor reason approval result now db book (ok _) v h =
      elim (Bool-cases (current digest codec before db)) [
        | inl e ↦
            let row = current_row digest codec before db e in
            rw
              (e, next-is-free digest codec before db v e, sym (current-Holds before db book h) ∙ e)
              (
                refl,
                entered-Holds codec after db
                    (record {
                      actions = set_row before.action_id (codec.write after) db.actions;
                      audit = audit_row after actor reason ∷ db.audit;
                    })
                    book h
                    (find_row-set_row_self before.action_id (codec.write after) (codec.write before)
                      db.actions row)
                    (λ j n.
                      find_row-set_row_ne before.action_id j (codec.write after) db.actions n),
              )
        | inr e ↦ rw (e, sym (current-Holds before db book h) ∙ e) (refl, h)
      ]
    where
      after : ActionRecord
      after = moved before state approval result now

  perform-Agrees :
      (request : Request) (db : Db Text) (book : Book)
      → IsValid digest codec db
      → Holds codec db book
      → Agrees (perform digest codec request db) (answer digest request book)
  unfolding perform answer transition
  perform-Agrees (getting id) db book v h = (get-found digest codec id db book v h, h)
  perform-Agrees (creating r) db book v h = create-Agrees r db book v h
  perform-Agrees (moving before state actor reason approval result now) db book v h =
      elim (Bool-cases (contains state (transitions before.state))) [
        | inl legal ↦ rw legal (
            publish-Agrees before state actor reason approval result now db book
              (validate_record digest (moved before state approval result now)) v h)
        | inr illegal ↦ rw illegal (refl, h)
      ]

  -- The action store is a book of records: from tables that satisfy the invariant and hold a book,
  -- any sequence of `get`, `create` and `transition` returns and raises exactly what the book answers,
  -- which knows no payloads, rows or audit keys, and leaves tables that satisfy the invariant and hold
  -- what is then in the book. Records that are created have passed their validators.
  pub run_all-refines :
      (requests : List Request) (db : Db Text) (book : Book)
      → All (IsAdmitted digest) requests
      → IsValid digest codec db
      → Holds codec db book
      → ((run_all (perform digest codec) requests db).0 ≡ (run_all (answer digest) requests book).0)
        × IsValid digest codec (run_all (perform digest codec) requests db).1
        × Holds codec
            (run_all (perform digest codec) requests db).1
            (run_all (answer digest) requests book).1
  unfolding run_all
  run_all-refines [] db book a v h = (refl, v, h)
  run_all-refines (request ∷ requests) db book a v h =
      let (same, held) = perform-Agrees request db book v h in
      let (rest, valid, last) =
        run_all-refines requests (perform digest codec request db).1 (answer digest request book).1
          a.1 (perform-IsValid digest codec request db a.0 v) held in
      (ap₂ ◌∷◌ same rest, valid, last)
