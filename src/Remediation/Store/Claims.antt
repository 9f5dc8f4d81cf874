-- ===== src/Remediation/Store/Claims.antt =====
-- Interleaved workers on the tables of src/payops/remediation/store.py: every method call is one
-- transaction, so a run of any number of workers is a sequence of calls with any arguments.
use pay_ops.Base.Table.{Codec, find_row, find_row-set_row_self}
use pay_ops.Base.{
  ℕ, suc, ◌≤◌, String, false, ◌≡◌, refl, Option, Eq, string_eq, nat_eq, Time, arith, Option-cases,
  inl, inr,
}
use pay_ops.Base.Result.{Result, ok, err, is_ok}
use pay_ops.Policy.Records.{Action}
use pay_ops.Remediation.Records.{
  ActionState, Approval, EffectReceipt, ActionRecord, validate_record, action_state_eq,
}
use pay_ops.Remediation.Store.{Db, moved, history, create, transition, current}
use pay_ops.Remediation.Store.Trail.{claims, claims_of, claims-Trail}
use pay_ops.Remediation.Store.Outcomes.{Ended, transition-Ended, transition-IsPublished}
use pay_ops.Remediation.Store.Passing.{
  HasPassed, create-HasPassed, transition-HasPassed, passed_not_current,
}
use pay_ops.Remediation.Store.Invariant.{IsValid, create-IsValid, transition-IsValid, current_row}

module _ {Text : Type 0} ⦃text_eq : Eq Text⦄ (digest : Action → String)
    (codec : Codec ActionRecord Text) where
  -- One call by some worker. What `create` is given has passed its validators.
  pub data Call : Db Text → Db Text → Type 0 where
    created :
        (db : Db Text) (r : ActionRecord)
        → validate_record digest r ≡ ok tt
        → Call db (create digest codec r db).1
    transitioned :
        (db : Db Text) (before : ActionRecord) (state : ActionState) (actor reason : String)
        (approval : Option Approval) (result : Option EffectReceipt) (now : Time)
        → Call db (transition digest codec before state actor reason approval result now db).1

  pub data Run (start : Db Text) : Db Text → Type 0 where
    here : Run start start
    next : {db db' : Db Text} → Run start db → Call db db' → Run start db'

  pub Run-trans : {a b c : Db Text} → Run a b → Run b c → Run a c
  Run-trans r here = r
  Run-trans r (next s c) = next (Run-trans r s) c

  Call-IsValid :
      {db db' : Db Text} → Call db db' → IsValid digest codec db → IsValid digest codec db'
  Call-IsValid (created db r c) v = create-IsValid digest codec r db c v
  Call-IsValid (transitioned db b s a w p e t) v =
      transition-IsValid digest codec b s a w p e t db v

  pub Run-IsValid :
      {start db : Db Text} → Run start db → IsValid digest codec start → IsValid digest codec db
  Run-IsValid here v = v
  Run-IsValid (next r c) v = Call-IsValid c (Run-IsValid r v)

  -- From tables that satisfy the invariant, no action is claimed for execution more than once,
  -- however workers interleave.
  pub claims-le-one :
      (start db : Db Text) (id : String)
      → IsValid digest codec start
      → Run start db
      → claims (history id db.audit) ≤ 1
  claims-le-one start db id v run = elim (Option-cases (find_row id db.actions)) [
    | inl missing ↦ rw ((Run-IsValid run v).unaudited id missing) (omega arith)
    | inr (text, found) ↦
        let b = (Run-IsValid run v).backed id text found in
        rw (claims-Trail b.trail) (claims_of-le b.entry.state)
  ]
    where
      claims_of-le : (s : ActionState) → claims_of s ≤ 1
      claims_of-le s = ground arith

  Run-HasPassed :
      {start db : Db Text} {id : String} {n : ℕ}
      → Run start db
      → HasPassed digest codec id n start
      → HasPassed digest codec id n db
  Run-HasPassed here h = h
  Run-HasPassed (next r (created db x c)) h =
      create-HasPassed digest codec x _ _ db (Run-HasPassed r h)
  Run-HasPassed (next r (transitioned db b s a w p e t)) h =
      transition-HasPassed digest codec b s a w p e t _ _ db (Run-HasPassed r h)

  -- A claim is exclusive: once a transition of `before` has gone through, no worker gets any
  -- transition of the same record through again, after any further calls of any workers.
  pub transition_once :
      (before : ActionRecord) (state state' : ActionState) (actor reason actor' reason' : String)
      (approval approval' : Option Approval) (result result' : Option EffectReceipt) (t t' : Time)
      (db db1 db2 : Db Text) (r : ActionRecord)
      → transition digest codec before state actor reason approval result t db ≡ (ok r, db1)
      → Run db1 db2
      → is_ok (transition digest codec before state' actor' reason' approval' result' t' db2).0
        ≡ false
  transition_once before state state' actor reason actor' reason' approval approval' result result'
        t t' db db1 db2 r e run =
      let (same, p) =
        transition-IsPublished digest codec before state actor reason approval result t db db1 r
          e in
      let after = moved before state approval result t in
      let passed : HasPassed digest codec before.action_id (suc before.revision) db1 = record {
        text = codec.write after;
        entry = after;
        found = rw p.actions (
            find_row-set_row_self before.action_id (codec.write after) (codec.write before)
              db.actions (current_row digest codec before db p.now));
        stored = codec.read-write after;
        passed = omega arith;
      } in
      refused (transition digest codec before state' actor' reason' approval' result' t' db2)
        (transition-Ended digest codec before state' actor' reason' approval' result' t' db2)
        (passed_not_current digest codec before db2 (Run-HasPassed run passed))
    where
      refused :
          (x : Result ActionRecord × Db Text)
          → Ended digest codec before state' actor' reason'
              (moved before state' approval' result' t')
              db2
              x
          → current digest codec before db2 ≡ false
          → is_ok x.0 ≡ false
      refused (ok _, db') (_, p) stale = cc (p.now, stale)
      refused (err _, db') p stale = refl
