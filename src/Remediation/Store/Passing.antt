-- ===== src/Remediation/Store/Passing.antt =====
-- Rows of src/payops/remediation/store.py that have passed a revision: no call takes them back.
use pay_ops.Base.Table.{
  Codec, find_row, set_row, find_row-set_row_self, find_row-set_row_ne, find_row-cons_ne,
}
use pay_ops.Base.{
  ℕ, suc, ◌≤◌, String, true, false, not, ◌||◌, ◌≡◌, refl, sym, subst, Option, some, Eq, ◌!=◌,
  string_eq, nat_eq, contains, Time, arith, Bool-cases, some_inj, inl, inr, String_discrete, ◌∙◌,
}
use pay_ops.Base.Result.{Result, ok, err}
use pay_ops.Policy.Records.{Action}
use pay_ops.Remediation.Records.{
  ActionState, Approval, EffectReceipt, ActionRecord, validate_record, is_proposed, action_state_eq,
}
use pay_ops.Remediation.Store.{
  Db, transitions, audited, moved, create, transition, taken, current, commit_new, publish,
  publish_valid,
}
use pay_ops.Remediation.Store.Invariant.{current_row}

module _ {Text : Type 0} ⦃text_eq : Eq Text⦄ (digest : Action → String)
    (codec : Codec ActionRecord Text) where
  -- Row `id` holds a record of revision `n` or later.
  pub record HasPassed (id : String) (n : ℕ) (db : Db Text) : Type 0 where
    pub text : Text
    pub entry : ActionRecord
    pub found : find_row id db.actions ≡ some text
    pub stored : codec.read text ≡ some entry
    pub passed : n ≤ entry.revision

  HasPassed-same :
      {id : String} {n : ℕ} {db : Db Text} (db' : Db Text)
      → HasPassed id n db
      → find_row id db'.actions ≡ find_row id db.actions
      → HasPassed id n db'
  HasPassed-same db' h e = record {
    text = h.text;
    entry = h.entry;
    found = e ∙ h.found;
    stored = h.stored;
    passed = h.passed;
  }

  taken_by_row :
      (r : ActionRecord) (text : Text) (db : Db Text)
      → find_row r.action_id db.actions ≡ some text
      → taken digest codec r db ≡ true
  taken_by_row r text db e = rw e refl

  pub create-HasPassed :
      (r : ActionRecord) (id : String) (n : ℕ) (db : Db Text)
      → HasPassed id n db
      → HasPassed id n (create digest codec r db).1
  unfolding create
  create-HasPassed r id n db h = elim (Bool-cases (not (is_proposed r.state) || r.revision != 0)) [
    | inl refused ↦ rw refused h
    | inr fresh ↦ rw fresh (elim (String_discrete r.action_id id) [
      | yes e ↦
          rw
            (taken_by_row r h.text db
              (subst (λ i. find_row i db.actions ≡ some h.text) (sym e) h.found))
            h
      | no ne ↦ elim (Bool-cases (taken digest codec r db)) [
        | inl dup ↦ rw dup h
        | inr free ↦ rw free (
            HasPassed-same (commit_new digest codec r false db).1 h
              (find_row-cons_ne r.action_id id (codec.write r) db.actions ne))
      ]
    ])
  ]

  replaced-HasPassed :
      (before after : ActionRecord) (id : String) (n : ℕ) (db db' : Db Text)
      → HasPassed id n db
      → after.revision ≡ suc before.revision
      → current digest codec before db ≡ true
      → db'.actions ≡ set_row before.action_id (codec.write after) db.actions
      → HasPassed id n db'
  replaced-HasPassed before after id n db db' h rev now e =
      elim (String_discrete before.action_id id) [
        | yes same ↦
            let row = current_row digest codec before db now in
            let text : some h.text ≡ some (codec.write before) =
              sym h.found
              ∙ (subst (λ i. find_row i db.actions ≡ some (codec.write before)) same row) in
            let entry : h.entry ≡ before =
              some_inj (sym h.stored ∙ (rw (some_inj text) (codec.read-write before))) in
            record {
              text = codec.write after;
              entry = after;
              found = rw e (
                  subst
                    (λ i.
                      find_row i (set_row before.action_id (codec.write after) db.actions)
                      ≡ some (codec.write after))
                    same
                    (find_row-set_row_self before.action_id (codec.write after) (codec.write before)
                      db.actions row));
              stored = codec.read-write after;
              passed = omega (arith, subst (λ (r : ActionRecord). n ≤ r.revision) entry h.passed);
            }
        | no ne ↦
            HasPassed-same db' h
              (rw e (find_row-set_row_ne before.action_id id (codec.write after) db.actions ne))
      ]

  publish-HasPassed :
      (before after : ActionRecord) (actor reason id : String) (n : ℕ) (db : Db Text)
      → HasPassed id n db
      → after.revision ≡ suc before.revision
      → HasPassed id n (publish digest codec before after actor reason db).1
  publish-HasPassed before after actor reason id n db h rev =
      elim (Bool-cases (current digest codec before db)) [
        | inl now ↦ rw now (elim (Bool-cases (audited after.action_id after.revision db.audit)) [
          | inl dup ↦ rw dup h
          | inr free ↦ rw free (replaced-HasPassed before after id n db _ h rev now refl)
        ])
        | inr stale ↦ rw stale h
      ]

  pub transition-HasPassed :
      (before : ActionRecord) (state : ActionState) (actor reason : String)
      (approval : Option Approval) (result : Option EffectReceipt) (now : Time) (id : String)
      (n : ℕ) (db : Db Text)
      → HasPassed id n db
      → HasPassed id n (transition digest codec before state actor reason approval result now db).1
  unfolding transition
  transition-HasPassed before state actor reason approval result now id n db h =
      elim (Bool-cases (contains state (transitions before.state))) [
        | inl legal ↦
            rw legal (go (validate_record digest (moved before state approval result now)))
        | inr illegal ↦ rw illegal h
      ]
    where
      go :
          (c : Result (Unit {0}))
          → HasPassed id n
              (publish_valid digest codec c before
                (moved before state approval result now)
                actor
                reason
                db).1
      go (ok _) =
          publish-HasPassed before (moved before state approval result now) actor reason id n db h
            (omega arith)
      go (err x) = h

  -- A record that a later one has replaced is not current again.
  pub passed_not_current :
      (before : ActionRecord) (db : Db Text)
      → HasPassed before.action_id (suc before.revision) db
      → current digest codec before db ≡ false
  passed_not_current before db h = elim (Bool-cases (current digest codec before db)) [
    | inl now ↦
        let text : some h.text ≡ some (codec.write before) =
          sym h.found ∙ current_row digest codec before db now in
        let entry : h.entry ≡ before =
          some_inj (sym h.stored ∙ (rw (some_inj text) (codec.read-write before))) in
        absurd (
          omega
            (arith, subst (λ (r : ActionRecord). suc before.revision ≤ r.revision) entry h.passed))
    | inr stale ↦ stale
  ]
