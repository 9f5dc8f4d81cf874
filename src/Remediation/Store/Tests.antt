-- ===== src/Remediation/Store/Tests.antt =====
-- The tables of src/payops/remediation/store.py while one action is proposed and approved.
use pay_ops.Base.{
  ◌≤◌, ◌≡◌, refl, false, none, some, List, [], ◌∷◌, String_discrete, Option-discrete, ℕ_discrete,
}
use pay_ops.Policy.{action_digest}
use pay_ops.Policy.Records.{
  action_valid, Action-discrete, OperationMode-discrete, ActionType-discrete,
}
use pay_ops.Base.Result.{ok, is_ok}
use pay_ops.Remediation.Records.{ActionRecord, ActionState, ActionState-discrete, validate_record}
use pay_ops.Remediation.Store.{Db, create, transition, history, moved, audit_row}
use pay_ops.Remediation.Store.Trail.{claims}
use pay_ops.Remediation.Store.Outcomes.{Ended, transition-Ended}
use pay_ops.Remediation.Store.Invariant.{IsValid, create-IsValid, transition-IsValid}
use pay_ops.Remediation.Store.Claims.{
  here, next, created, transitioned, claims-le-one, transition_once,
}
use pay_ops.Remediation.Store.Book.{Request, getting, creating, moving, answer, run_all}
use pay_ops.Remediation.Store.Holding.{Holds, perform}
use pay_ops.Remediation.Store.Refinement.{run_all-refines}
use pay_ops.Remediation.Examples.{
  ActionRecord-discrete, plain_digest, plain_codec, action_record_eq, restart_proposed,
  bob_approval, empty_db, empty_db-IsValid, noon,
}

restart_proposed-valid : validate_record plain_digest restart_proposed ≡ ok tt
unfolding validate_record action_valid action_digest
restart_proposed-valid = refl

abbrev proposed_db : Db ActionRecord
proposed_db = record {
  actions = ("inc-1", restart_proposed) ∷ [];
  audit = audit_row restart_proposed "ann" "POLICY_REVIEWED" ∷ [];
}

abbrev restart_approved : ActionRecord
restart_approved = moved restart_proposed ActionState.approved (some bob_approval) none noon

abbrev approved_db : Db ActionRecord
approved_db = record {
  actions = ("inc-1", restart_approved) ∷ [];
  audit = audit_row restart_approved "bob" "HUMAN_APPROVED" ∷ proposed_db.audit;
}

approval_recorded :
    transition plain_digest plain_codec restart_proposed ActionState.approved "bob" "HUMAN_APPROVED"
      (some bob_approval)
      none
      noon
      proposed_db
    ≡ (ok restart_approved, approved_db)
unfolding transition ActionState-discrete validate_record action_valid action_digest
    ActionRecord-discrete String_discrete Action-discrete OperationMode-discrete ActionType-discrete
    ℕ_discrete Option-discrete
approval_recorded = refl

create-IsValid_example :
    IsValid plain_digest plain_codec (create plain_digest plain_codec restart_proposed empty_db).1
create-IsValid_example =
    create-IsValid plain_digest plain_codec restart_proposed empty_db restart_proposed-valid
      empty_db-IsValid

transition-IsValid_example :
    IsValid plain_digest plain_codec
      (transition plain_digest plain_codec restart_proposed ActionState.approved "bob"
        "HUMAN_APPROVED"
        (some bob_approval)
        none
        noon
        (create plain_digest plain_codec restart_proposed empty_db).1).1
transition-IsValid_example =
    transition-IsValid plain_digest plain_codec restart_proposed ActionState.approved "bob"
      "HUMAN_APPROVED" (some bob_approval) none noon
      (create plain_digest plain_codec restart_proposed empty_db).1 create-IsValid_example

transition-Ended_example :
    Ended plain_digest plain_codec restart_proposed ActionState.approved "bob" "HUMAN_APPROVED"
      (moved restart_proposed ActionState.approved (some bob_approval) none noon)
      proposed_db
      (transition plain_digest plain_codec restart_proposed ActionState.approved "bob"
        "HUMAN_APPROVED"
        (some bob_approval)
        none
        noon
        proposed_db)
transition-Ended_example =
    transition-Ended plain_digest plain_codec restart_proposed ActionState.approved "bob"
      "HUMAN_APPROVED" (some bob_approval) none noon proposed_db

claims-le-one_example :
    claims (
      history "inc-1"
        (transition plain_digest plain_codec restart_approved ActionState.executing "eve" "DISPATCH"
          none none noon
          (create plain_digest plain_codec restart_proposed empty_db).1).1.audit)
    ≤ 1
claims-le-one_example =
    claims-le-one plain_digest plain_codec empty_db
      (transition plain_digest plain_codec restart_approved ActionState.executing "eve" "DISPATCH"
        none none noon (create plain_digest plain_codec restart_proposed empty_db).1).1
      "inc-1" empty_db-IsValid
      (next (next here (created empty_db restart_proposed restart_proposed-valid)) (
        transitioned (create plain_digest plain_codec restart_proposed empty_db).1 restart_approved
          ActionState.executing "eve" "DISPATCH" none none noon))

transition_once_example :
    is_ok
      (transition plain_digest plain_codec restart_proposed ActionState.approved "bea"
        "HUMAN_APPROVED"
        (some bob_approval)
        none
        noon
        approved_db).0
    ≡ false
transition_once_example =
    transition_once plain_digest plain_codec restart_proposed ActionState.approved
      ActionState.approved "bob" "HUMAN_APPROVED" "bea" "HUMAN_APPROVED" (some bob_approval)
      (some bob_approval) none none noon noon proposed_db approved_db approved_db restart_approved
      approval_recorded here

-- Ann proposes, Bob approves twice, and the record is read.
abbrev day : List Request
day =
    creating restart_proposed
    ∷ moving restart_proposed ActionState.approved "bob" "HUMAN_APPROVED" (some bob_approval) none
        noon
    ∷ moving restart_proposed ActionState.approved "bob" "HUMAN_APPROVED" (some bob_approval) none
        noon
    ∷ getting "inc-1"
    ∷ []

run_all-refines_example :
    ((run_all (perform plain_digest plain_codec) day empty_db).0
      ≡ (run_all (answer plain_digest) day (λ id. none)).0)
    × IsValid plain_digest plain_codec (run_all (perform plain_digest plain_codec) day empty_db).1
    × Holds plain_codec
        (run_all (perform plain_digest plain_codec) day empty_db).1
        (run_all (answer plain_digest) day (λ id. none)).1
run_all-refines_example =
    run_all-refines plain_digest plain_codec day empty_db (λ id. none)
      (restart_proposed-valid, (tt, (tt, (tt, tt)))) empty_db-IsValid (λ id. refl)
