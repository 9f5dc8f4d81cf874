-- ===== src/Remediation/Store/Outcomes.antt =====
-- What a call of `ActionStore.transition` of src/payops/remediation/store.py has done, by how it
-- ended.
use pay_ops.Base.Table.{Codec, set_row}
use pay_ops.Base.{
  String, true, false, ◌≡◌, refl, Option, ◌∷◌, Eq, In, contains_iff, contains, Time, Bool-cases,
  inl, inr,
}
use pay_ops.Base.Result.{Result, ok, err}
use pay_ops.Policy.Records.{Action}
use pay_ops.Remediation.Records.{
  ActionState, action_state_eq, Approval, EffectReceipt, ActionRecord, validate_record,
}
use pay_ops.Remediation.Store.{
  Db, transitions, audited, audit_row, moved, current, publish, publish_valid, transition,
}

module _ {Text : Type 0} ⦃text_eq : Eq Text⦄ (digest : Action → String)
    (codec : Codec ActionRecord Text) where
  -- The old record was the current one, the move is legal, the new record is valid, and the row
  -- and one audit row were written; nothing else was.
  pub record IsPublished (before : ActionRecord) (state : ActionState) (actor reason : String)
      (after : ActionRecord) (db db' : Db Text) : Type 0 where
    pub legal : In state (transitions before.state)
    pub valid : validate_record digest after ≡ ok tt
    pub now : current digest codec before db ≡ true
    pub fresh : audited after.action_id after.revision db.audit ≡ false
    pub actions : db'.actions ≡ set_row before.action_id (codec.write after) db.actions
    pub audit : db'.audit ≡ audit_row after actor reason ∷ db.audit

  -- An exception leaves both tables alone.
  abbrev pub Ended :
      ActionRecord
      → ActionState
      → String
      → String
      → ActionRecord
      → Db Text
      → Result ActionRecord × Db Text
      → Type 0
  Ended before state actor reason after db (ok r, db') =
      (r ≡ after) × IsPublished before state actor reason after db db'
  Ended before state actor reason after db (err e, db') = db' ≡ db

  publish-Ended :
      (before after : ActionRecord) (state : ActionState) (actor reason : String) (db : Db Text)
      → In state (transitions before.state)
      → validate_record digest after ≡ ok tt
      → Ended before state actor reason after db (publish digest codec before after actor reason db)
  publish-Ended before after state actor reason db legal valid =
      elim (Bool-cases (current digest codec before db)) [
        | inl now ↦ rw now (elim (Bool-cases (audited after.action_id after.revision db.audit)) [
          | inl dup ↦ rw dup refl
          | inr free ↦ rw free (
            refl,
            record {
              legal = legal;
              valid = valid;
              now = now;
              fresh = free;
              actions = refl;
              audit = refl;
            },
          )
        ])
        | inr stale ↦ rw stale refl
      ]

  -- A transition either publishes exactly the moved record, or raises and changes nothing.
  pub transition-Ended :
      (before : ActionRecord) (state : ActionState) (actor reason : String)
      (approval : Option Approval) (result : Option EffectReceipt) (now : Time) (db : Db Text)
      → Ended before state actor reason
          (moved before state approval result now)
          db
          (transition digest codec before state actor reason approval result now db)
  unfolding transition
  transition-Ended before state actor reason approval result now db =
      elim (Bool-cases (contains state (transitions before.state))) [
        | inl legal ↦ rw legal (
            go (validate_record digest after) refl
              ((contains_iff state (transitions before.state)).0 legal))
        | inr illegal ↦ rw illegal refl
      ]
    where
      after : ActionRecord
      after = moved before state approval result now

      go :
          (c : Result (Unit {0}))
          → validate_record digest after ≡ c
          → In state (transitions before.state)
          → Ended before state actor reason after db
              (publish_valid digest codec c before after actor reason db)
      go (ok _) e legal = publish-Ended before after state actor reason db legal e
      go (err x) e legal = refl

  -- The same, read from a call that succeeded.
  pub transition-IsPublished :
      (before : ActionRecord) (state : ActionState) (actor reason : String)
      (approval : Option Approval) (result : Option EffectReceipt) (now : Time) (db db' : Db Text)
      (r : ActionRecord)
      → transition digest codec before state actor reason approval result now db ≡ (ok r, db')
      → (r ≡ moved before state approval result now)
        × IsPublished before state actor reason (moved before state approval result now) db db'
  transition-IsPublished before state actor reason approval result now db db' r e =
      rw e at (transition-Ended before state actor reason approval result now db)
