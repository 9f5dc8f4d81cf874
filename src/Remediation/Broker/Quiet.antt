-- ===== src/Remediation/Broker/Quiet.antt =====
-- The steps of src/payops/remediation/broker.py that hand no effect to the backend: they change
-- the tables by calls of the store only.
use pay_ops.Base.Table.{Codec}
use pay_ops.Base.{
  String, Bool, true, ◌≡◌, refl, ◌∙◌, subst, Option, none, some, Eq, string_eq, arith, Time,
  Bool-cases, inl, inr, some_inj, if◌then◌else◌,
}
use pay_ops.Base.Result.{Result, ok, Error}
use pay_ops.Base.Action.{Exec, lift, guard, ◌>>=◌}
use pay_ops.Base.Action.Triple.{
  IsPreorder, Within, Within-pure, Within-lift, Within-guard, Within-bind,
}
use pay_ops.Policy.Records.{Role, OperationMode, Action, action_valid}
use pay_ops.Policy.External.{Platform}
use pay_ops.Policy.{action_digest, read_proposal}
use pay_ops.Remediation.Records.{
  ActionState, Approval, EffectReceipt, ActionRecord, consistent, validate_record,
}
use pay_ops.Remediation.Store.{Db, create}
use pay_ops.Remediation.Store.Claims.{Run, here, next, created, transitioned, Run-trans}
use pay_ops.Remediation.Host.{Env, Host}
use pay_ops.Remediation.Broker.{
  proposal_or_denied, State, ask, ask_result, stored, load, move, identity, review, new_record,
  propose, approve, approval_current, dispatch_authority, claim_checks,
}

module _ {Json World Text : Type 0} ⦃text_eq : Eq Text⦄ (platform : Platform Json)
    (codec : Codec ActionRecord Text) (host : Host World (action_digest platform) codec)
    (mode : OperationMode) where
  pub record QuietStep (s t : State World Text) : Type 0 where
    pub effects : t.effects ≡ s.effects
    pub run : Run (action_digest platform) codec s.env.db t.env.db

  pub quiet_order : IsPreorder QuietStep
  quiet_order = record {
    same = λ s. record { effects = refl; run = here };
    chain = λ s t u p q. record {
      effects = q.effects ∙ p.effects;
      run = Run-trans (action_digest platform) codec p.run q.run;
    };
  }

  abbrev pub IsQuiet : {A : Type 0} → Exec (State World Text) A → Type 0
  IsQuiet m = Within QuietStep m

  ask-IsQuiet :
      {A : Type 0} (f : Env World Text → A × Env World Text)
      → ((e : Env World Text) → Run (action_digest platform) codec e.db (f e).1.db)
      → IsQuiet (ask platform codec host mode f)
  unfolding ask
  ask-IsQuiet f h = record { at = λ s. record { effects = refl; run = h s.env } }

  ask_result-IsQuiet :
      {A : Type 0} (f : Env World Text → Result A × Env World Text)
      → ((e : Env World Text) → Run (action_digest platform) codec e.db (f e).1.db)
      → IsQuiet (ask_result platform codec host mode f)
  unfolding ask_result
  ask_result-IsQuiet f h = record { at = λ s. record { effects = refl; run = h s.env } }

  stored-IsQuiet :
      {A : Type 0} (f : Exec (Db Text) A)
      → ((db : Db Text) → Run (action_digest platform) codec db (f db).1)
      → IsQuiet (stored platform codec host mode f)
  unfolding stored
  stored-IsQuiet f h = record { at = λ s. record { effects = refl; run = h s.env.db } }

  pub clock-IsQuiet : IsQuiet (ask platform codec host mode host.clock)
  clock-IsQuiet = ask-IsQuiet host.clock host.clock-Run

  pub load-IsQuiet : (id : String) → IsQuiet (load platform codec host mode id)
  unfolding load
  load-IsQuiet id = stored-IsQuiet _ (λ db. here)

  bind :
      {A B : Type 0} {m : Exec (State World Text) A} {f : A → Exec (State World Text) B}
      → IsQuiet m
      → ((a : A) → IsQuiet (f a))
      → IsQuiet (m >>= f)
  bind hm hf = Within-bind quiet_order _ _ hm hf

  done : {A : Type 0} (r : Result A) → IsQuiet (lift r)
  done r = Within-lift quiet_order r

  checked : (b : Bool) (e : Error) → IsQuiet (guard b e)
  checked b e = Within-guard quiet_order b e

  pub move-IsQuiet :
      (before : ActionRecord) (state : ActionState) (actor reason : String)
      (approval : Option Approval) (result : Option EffectReceipt)
      → IsQuiet (move platform codec host mode before state actor reason approval result)
  unfolding move
  move-IsQuiet before state actor reason approval result = bind clock-IsQuiet λ now.
      stored-IsQuiet _
        λ db. next here (transitioned db before state actor reason approval result now)

  pub identity-IsQuiet :
      (subject : String) (role : Role) (namespace : String)
      → IsQuiet (identity platform codec host mode subject role namespace)
  unfolding identity
  identity-IsQuiet subject role namespace =
      bind (ask_result-IsQuiet (host.principal subject) (host.principal-Run subject))
        λ p. bind clock-IsQuiet λ now. done _

  pub review-IsQuiet :
      (a : Action) (subject : String) → IsQuiet (review platform codec host mode a subject)
  unfolding review
  review-IsQuiet a subject = bind (identity-IsQuiet _ _ _) λ p.
      bind (ask_result-IsQuiet (host.context a subject) (host.context-Run a subject)) λ c.
        bind (checked _ _)
          λ _. bind clock-IsQuiet λ now. bind (done _) λ verdict. bind (checked _ _) λ _. done _

  read_proposal-valid :
      (value : Json) (a : Action) → read_proposal platform value ≡ some a → action_valid a ≡ true
  unfolding read_proposal
  read_proposal-valid value a e = go (platform.read_action value) e
    where
      go :
          (o : Option Action)
          → ◌≡◌ {A = Option Action}
              (elim o [ none ↦ none | some x ↦ if action_valid x then some x else none ])
              (some a)
          → action_valid a ≡ true
      go none h = absurd (cc)
      go (some x) h = elim (Bool-cases (action_valid x)) [
        | inl v ↦ subst (λ y. action_valid y ≡ true) (some_inj (rw v at h)) v
        | inr v ↦ absurd (cc (rw v at h))
      ]

  -- The record that `propose` builds of an action that it has read passes the validators.
  new_record-valid :
      (a : Action) (subject : String) (now : Time)
      → action_valid a ≡ true
      → validate_record (action_digest platform) (new_record platform codec host mode a subject now)
        ≡ ok tt
  unfolding validate_record consistent
  new_record-valid a subject now v =
      rw v (ground (arith, string_eq.beq_iff (action_digest platform a) (action_digest platform a)))

  -- The steps of `propose` after the reading of the action.
  propose_read-IsQuiet :
      (o : Option Action) (subject : String)
      → ((a : Action) → o ≡ some a → action_valid a ≡ true)
      → IsQuiet (
          lift (proposal_or_denied o) >>= λ a. review platform codec host mode a subject >>= λ _.
          ask platform codec host mode host.clock >>= λ now. stored platform codec host mode (
            create
              (action_digest platform)
              codec
              (new_record platform codec host mode a subject now)))
  unfolding ◌>>=◌
  propose_read-IsQuiet none subject valid = record { at = λ s. quiet_order.same s }
  propose_read-IsQuiet (some a) subject valid =
      let rest = bind (review-IsQuiet a subject) λ _. bind clock-IsQuiet λ now.
        stored-IsQuiet
          (create (action_digest platform) codec
            (new_record platform codec host mode a subject now))
          λ db. next here (created db _ (new_record-valid a subject now (valid a refl))) in
      record { at = λ s. rest.at s }

  pub propose-IsQuiet :
      (value : Json) (subject : String) → IsQuiet (propose platform codec host mode value subject)
  unfolding propose
  propose-IsQuiet value subject =
      propose_read-IsQuiet (read_proposal platform value) subject (read_proposal-valid value)

  pub approve-IsQuiet :
      (id subject : String) → IsQuiet (approve platform codec host mode id subject)
  unfolding approve
  approve-IsQuiet id subject = bind (load-IsQuiet id) λ r. bind (identity-IsQuiet _ _ _) λ _.
      bind (checked _ _) λ _. bind (review-IsQuiet _ _) λ deadline.
        bind (identity-IsQuiet _ _ _)
          λ _. bind clock-IsQuiet λ now. bind (checked _ _) λ _. move-IsQuiet _ _ _ _ _ _

  pub approval_current-IsQuiet :
      (a : Approval) → IsQuiet (approval_current platform codec host mode a)
  unfolding approval_current
  approval_current-IsQuiet a = bind clock-IsQuiet λ now. checked _ _

  pub dispatch_authority-IsQuiet :
      (r : ActionRecord) (a : Approval) (subject : String) (deadline : Time)
      → IsQuiet (dispatch_authority platform codec host mode r a subject deadline)
  unfolding dispatch_authority
  dispatch_authority-IsQuiet r a subject deadline = bind (identity-IsQuiet _ _ _) λ first.
      bind (identity-IsQuiet _ _ _) λ second. bind (identity-IsQuiet _ _ _) λ third.
        bind clock-IsQuiet λ now.
          bind (checked _ _)
            λ _. bind (approval_current-IsQuiet a) λ _. bind clock-IsQuiet λ later. checked _ _

  pub claim_checks-IsQuiet :
      (r : ActionRecord) (a : Approval) → IsQuiet (claim_checks platform codec host mode r a)
  unfolding claim_checks
  claim_checks-IsQuiet r a = bind clock-IsQuiet λ now. bind (checked _ _) λ _.
      bind (identity-IsQuiet _ _ _) λ _.
        bind (review-IsQuiet _ _)
          λ deadline. bind (approval_current-IsQuiet a) λ _. Within-pure quiet_order deadline
