-- ===== src/Remediation/Store/Invariant.antt =====
-- The invariant of the two tables of src/payops/remediation/store.py: each row holds a valid
-- record of its own key, whose audit rows are a legal path to the record's state and revision.
use pay_ops.Base.Table.{
  Codec, find_row, set_row, find_row-set_row_self, find_row-set_row_ne, find_row-cons_ne,
  find_row-cons_self,
}
use pay_ops.Base.{
  suc, String, Bool, true, false, not, ◌||◌, ◌≡◌, ◌≢◌, refl, sym, subst, Option, none, some, List,
  [], ◌∷◌, Eq, ◌==◌, ◌!=◌, string_eq, nat_eq, contains, contains_iff, Time, arith, Bool-cases,
  Option-cases, some_inj, inl, inr, String_discrete, ap, ◌∙◌,
}
use pay_ops.Base.Result.{Result, ok, err}
use pay_ops.Policy.Records.{Action}
use pay_ops.Remediation.Records.{
  ActionState, action_state_eq, Approval, EffectReceipt, ActionRecord, validate_record, is_proposed,
}
use pay_ops.Remediation.Store.{
  AuditRow, Db, transitions, audited, audit_row, moved, history, create, transition, taken, current,
  commit_new, publish, publish_valid,
}
use pay_ops.Remediation.Store.Rows.{history-cons_ne, history-cons_eq}
use pay_ops.Remediation.Store.Trail.{Trail}
use pay_ops.Remediation.Store.Trail

module _ {Text : Type 0} (digest : Action → String) (codec : Codec ActionRecord Text) where
  -- The payload of row `id` is a record of that id, which is backed by its audit rows.
  pub record IsBacked (id : String) (text : Text) (audit : List AuditRow) : Type 0 where
    pub entry : ActionRecord
    pub stored : codec.read text ≡ some entry
    pub valid : validate_record digest entry ≡ ok tt
    pub keyed : entry.action_id ≡ id
    pub trail : Trail.Trail (history id audit) entry.state entry.revision

  pub record IsValid (db : Db Text) : Type 0 where
    pub backed :
        (id : String) (text : Text) → find_row id db.actions ≡ some text → IsBacked id text db.audit
    pub unaudited : (id : String) → find_row id db.actions ≡ none → history id db.audit ≡ []

  IsBacked-audit :
      {id : String} {text : Text} {old new : List AuditRow}
      → IsBacked id text old
      → history id new ≡ history id old
      → IsBacked id text new
  IsBacked-audit b e = record {
    entry = b.entry;
    stored = b.stored;
    valid = b.valid;
    keyed = b.keyed;
    trail = rw e b.trail;
  }

  IsBacked-new :
      (r : ActionRecord) (text : Text) (row : AuditRow) (audit : List AuditRow)
      → codec.read text ≡ some r
      → validate_record digest r ≡ ok tt
      → row.action_id ≡ r.action_id
      → Trail.Trail (row ∷ history r.action_id audit) r.state r.revision
      → IsBacked r.action_id text (row ∷ audit)
  IsBacked-new r text row audit e c k t = record {
    entry = r;
    stored = e;
    valid = c;
    keyed = refl;
    trail = rw (history-cons_eq r.action_id row audit k) t;
  }

module _ {Text : Type 0} ⦃text_eq : Eq Text⦄ (digest : Action → String)
    (codec : Codec ActionRecord Text) where
  -- The row of `id` and its newest audit row are written together.
  writes-IsValid :
      (db db' : Db Text) (r : ActionRecord) (row : AuditRow)
      → IsValid digest codec db
      → row.action_id ≡ r.action_id
      → validate_record digest r ≡ ok tt
      → Trail.Trail (row ∷ history r.action_id db.audit) r.state r.revision
      → db'.audit ≡ row ∷ db.audit
      → find_row r.action_id db'.actions ≡ some (codec.write r)
      → ((j : String) → r.action_id ≢ j → find_row j db'.actions ≡ find_row j db.actions)
      → IsValid digest codec db'
  writes-IsValid db db' r row v k c t audit here there = record {
    backed = λ j text found. rw audit (elim (String_discrete r.action_id j) [
      | yes e ↦
          let same : text ≡ codec.write r = cc in
          subst (λ i. IsBacked digest codec i text (row ∷ db.audit)) e
            (IsBacked-new digest codec r text row db.audit (rw same (codec.read-write r)) c k t)
      | no n ↦
          IsBacked-audit digest codec (v.backed j text (sym (there j n) ∙ found))
            (history-cons_ne j row db.audit (λ e. n (sym k ∙ e)))
    ]);
    unaudited = λ j missing. rw audit (elim (String_discrete r.action_id j) [
      | yes e ↦ absurd (cc)
      | no n ↦
          history-cons_ne j row db.audit (λ e. n (sym k ∙ e))
          ∙ v.unaudited j (sym (there j n) ∙ missing)
    ]);
  }

  taken-false :
      (r : ActionRecord) (db : Db Text)
      → taken digest codec r db ≡ false
      → find_row r.action_id db.actions ≡ none
  taken-false r db free = ground (arith, Option-cases (find_row r.action_id db.actions))

  new_row :
      (r : ActionRecord) (db : Db Text)
      → validate_record digest r ≡ ok tt
      → IsValid digest codec db
      → (not (is_proposed r.state) || r.revision != 0) ≡ false
      → taken digest codec r db ≡ false
      → IsValid digest codec (commit_new digest codec r false db).1
  new_row r db c v fresh free =
      writes-IsValid db (commit_new digest codec r false db).1 r
        (audit_row r r.proposer "POLICY_REVIEWED") v refl c
        (Trail.begun_at (audit_row r r.proposer "POLICY_REVIEWED") (history r.action_id db.audit)
          r.state r.revision (v.unaudited r.action_id (taken-false r db free)) (ground arith)
          (ground arith) refl refl)
        refl (find_row-cons_self r.action_id (codec.write r) db.actions)
        (λ j n. find_row-cons_ne r.action_id j (codec.write r) db.actions n)

  -- `create` of a record that has passed its validators keeps the invariant, however it ends.
  pub create-IsValid :
      (r : ActionRecord) (db : Db Text)
      → validate_record digest r ≡ ok tt
      → IsValid digest codec db
      → IsValid digest codec (create digest codec r db).1
  unfolding create
  create-IsValid r db c v = elim (Bool-cases (not (is_proposed r.state) || r.revision != 0)) [
    | inl refused ↦ rw refused v
    | inr fresh ↦ rw fresh (elim (Bool-cases (taken digest codec r db)) [
      | inl dup ↦ rw dup v
      | inr free ↦ rw free (new_row r db c v fresh free)
    ])
  ]

  pub current_row :
      (before : ActionRecord) (db : Db Text)
      → current digest codec before db ≡ true
      → find_row before.action_id db.actions ≡ some (codec.write before)
  current_row before db h = go (find_row before.action_id db.actions) h
    where
      go :
          (o : Option Text)
          → ◌≡◌ {A = Bool}
              (elim o [ none ↦ false | some payload ↦ payload == codec.write before ])
              true
          → o ≡ some (codec.write before)
      go none e = cc
      go (some payload) e = ap some ((text_eq.beq_iff payload (codec.write before)).0 e)

  -- The record that a conditional update has compared is the one whose trail the row has.
  pub trail_before :
      (before : ActionRecord) (db : Db Text)
      → IsValid digest codec db
      → current digest codec before db ≡ true
      → Trail.Trail (history before.action_id db.audit) before.state before.revision
  trail_before before db v now =
      let b = v.backed before.action_id (codec.write before) (current_row before db now) in
      let same : b.entry ≡ before = some_inj (sym b.stored ∙ codec.read-write before) in
      subst
        (λ (r : ActionRecord). Trail.Trail (history before.action_id db.audit) r.state r.revision)
        same b.trail

  replaced_row :
      (before after : ActionRecord) (state : ActionState) (actor reason : String) (db : Db Text)
      → IsValid digest codec db
      → validate_record digest after ≡ ok tt
      → contains state (transitions before.state) ≡ true
      → after.action_id ≡ before.action_id
      → after.state ≡ state
      → after.revision ≡ suc before.revision
      → current digest codec before db ≡ true
      → IsValid digest codec (record {
        actions = set_row before.action_id (codec.write after) db.actions;
        audit = audit_row after actor reason ∷ db.audit;
      })
  replaced_row before after state actor reason db v c legal id st rev now =
      writes-IsValid db _ after (audit_row after actor reason) v refl c
        (Trail.moved_at {s = before.state} {n = before.revision} (audit_row after actor reason)
          after.state after.revision (rw id (trail_before before db v now))
          (rw st ((contains_iff state (transitions before.state)).0 legal)) rev refl refl)
        refl
        (subst
          (λ i.
            find_row i (set_row before.action_id (codec.write after) db.actions)
            ≡ some (codec.write after))
          (sym id)
          (find_row-set_row_self before.action_id (codec.write after) (codec.write before)
            db.actions (current_row before db now)))
        (λ j n.
          find_row-set_row_ne before.action_id j (codec.write after) db.actions (λ e. n (id ∙ e)))

  -- The new record of a transition that gets through, on its branch.
  moved_row :
      (before after : ActionRecord) (state : ActionState) (actor reason : String) (db : Db Text)
      → IsValid digest codec db
      → validate_record digest after ≡ ok tt
      → contains state (transitions before.state) ≡ true
      → after.action_id ≡ before.action_id
      → after.state ≡ state
      → after.revision ≡ suc before.revision
      → IsValid digest codec (publish digest codec before after actor reason db).1
  moved_row before after state actor reason db v c legal id st rev =
      elim (Bool-cases (current digest codec before db)) [
        | inl now ↦ rw now (elim (Bool-cases (audited after.action_id after.revision db.audit)) [
          | inl dup ↦ rw dup v
          | inr free ↦
              rw free (replaced_row before after state actor reason db v c legal id st rev now)
        ])
        | inr stale ↦ rw stale v
      ]

  -- `transition` keeps the invariant, whatever it is given and however it ends.
  pub transition-IsValid :
      (before : ActionRecord) (state : ActionState) (actor reason : String)
      (approval : Option Approval) (result : Option EffectReceipt) (now : Time) (db : Db Text)
      → IsValid digest codec db
      → IsValid digest codec
          (transition digest codec before state actor reason approval result now db).1
  unfolding transition
  transition-IsValid before state actor reason approval result now db v =
      let after = moved before state approval result now in
      elim (Bool-cases (contains state (transitions before.state))) [
        | inl legal ↦ rw legal (valid_or_not (validate_record digest after) refl legal)
        | inr illegal ↦ rw illegal v
      ]
    where
      valid_or_not :
          (c : Result (Unit {0}))
          → validate_record digest (moved before state approval result now) ≡ c
          → contains state (transitions before.state) ≡ true
          → IsValid digest codec
              (publish_valid digest codec c before
                (moved before state approval result now)
                actor
                reason
                db).1
      valid_or_not (ok _) e legal =
          moved_row before (moved before state approval result now) state actor reason db v e legal
            refl refl (omega arith)
      valid_or_not (err x) e legal = v
