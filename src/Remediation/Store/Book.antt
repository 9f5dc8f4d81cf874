-- ===== src/Remediation/Store/Book.antt =====
-- What `ActionStore` of src/payops/remediation/store.py promises: for each action identifier at most
-- one record, without payloads, rows or audit keys.
use pay_ops.Base.{
  String, Bool, false, not, ◌||◌, Option, none, some, List, [], ◌∷◌, Eq, ◌==◌, ◌!=◌, string_eq,
  nat_eq, if◌then◌else◌, contains, Time,
}
use pay_ops.Base.Result.{
  Result, ok, err, permission, value_error, key_error, transition_conflict, raise_if, ◌>>◌,
}
use pay_ops.Base.Action.{Exec}
use pay_ops.Policy.Records.{Action, action_eq}
use pay_ops.Remediation.Records.{
  ActionState, action_state_eq, Approval, EffectReceipt, ActionRecord, validate_record, is_proposed,
}
use pay_ops.Remediation.Store.{transitions, moved}

abbrev pub Book : Type 0
Book = String → Option ActionRecord

abbrev pub entered : ActionRecord → Book → Book
entered r book id = if r.action_id == id then some r else book id

-- The calls of a client, with their arguments.
pub data Request : Type 0 where
  getting : String → Request
  creating : ActionRecord → Request
  moving :
      (before : ActionRecord) (state : ActionState) (actor reason : String)
      (approval : Option Approval) (result : Option EffectReceipt) (now : Time)
      → Request

abbrev pub found : Option ActionRecord → Result ActionRecord
found none = err key_error
found (some r) = ok r

-- A second proposal under an identifier gets the first one back, or is refused.
abbrev pub proposed_in : ActionRecord → Option ActionRecord → Exec Book ActionRecord
proposed_in r none book = (ok r, entered r book)
proposed_in r (some first) book = (
  raise_if (first.proposer != r.proposer || first.proposal != r.proposal)
        (permission "proposal belongs to another identity")
      >> ok first,
  book,
)

module _ ⦃record_eq : Eq ActionRecord⦄ (digest : Action → String) where
  abbrev pub is_held : ActionRecord → Option ActionRecord → Bool
  is_held before none = false
  is_held before (some r) = r == before

  abbrev pub moved_in : Result (Unit {0}) → ActionRecord → ActionRecord → Exec Book ActionRecord
  moved_in (err e) before after book = (err e, book)
  moved_in (ok _) before after book =
      if is_held before (book before.action_id)
      then (ok after, entered after book)
      else (err transition_conflict, book)

  unfoldable pub answer : Request → Exec Book ActionRecord
  answer (getting id) book = (found (book id), book)
  answer (creating r) book =
      if not (is_proposed r.state) || r.revision != 0
      then (err value_error, book)
      else proposed_in r (book r.action_id) book
  answer (moving before state actor reason approval result now) book =
      let after = moved before state approval result now in
      if not (contains state (transitions before.state))
      then (err transition_conflict, book)
      else moved_in (validate_record digest after) before after book

-- The calls of a sequence, one after the other: what each returned or raised, and the last state.
unfoldable pub run_all :
    {S : Type 0}
    → (Request → Exec S ActionRecord)
    → List Request
    → S
    → List (Result ActionRecord) × S
run_all perform [] s = ([], s)
run_all perform (request ∷ requests) s =
    let (x, s') = perform request s in
    let (xs, last) = run_all perform requests s' in (x ∷ xs, last)
