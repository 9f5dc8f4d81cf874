-- ===== src/Remediation/Broker/Once.antt =====
-- At most one effect for each action of src/payops/remediation/broker.py: every effect is paid for
-- by a claim that the same call has committed before it.
use pay_ops.Base.Table.{Codec}
use pay_ops.Base.{
  ◌≤◌, suc, String, Bool, true, false, ◌≡◌, refl, sym, subst, Option, none, some, ◌∷◌, Eq,
  string_eq, arith, Time, Bool-cases, inl, inr, String_discrete, nat_eq,
}
use pay_ops.Base.Result.{Result, ok, err}
use pay_ops.Base.Action.{Exec, ◌>>=◌}
use pay_ops.Base.Action.Triple.{
  Within-pure, Within-raise, Within-guard, Within-bind, Holds, Triple, Triple-weaken, Triple-try,
  Triple-bind, Within,
}
use pay_ops.Policy.Records.{OperationMode, Action}
use pay_ops.Policy.External.{Platform}
use pay_ops.Policy.{action_digest}
use pay_ops.Remediation.Records.{executing, Approval, EffectReceipt, ActionRecord}
use pay_ops.Remediation.Store.{Db, history, transition, moved, audit_row}
use pay_ops.Remediation.Store.Trail.{claims}
use pay_ops.Remediation.Store.Outcomes.{Ended, transition-Ended}
use pay_ops.Remediation.Store.Claims.{Run, here, next, transitioned, Run-IsValid}
use pay_ops.Remediation.Host.{Env, Host}
use pay_ops.Remediation.Broker.{
  State, stored, effect, move, checked_effect, settle, run_effect, settle_authority, dispatch,
  claim, claim_approved, claim_unless_dispatched, execute, was_dispatched, is_approved,
}
use pay_ops.Remediation.Broker.Quiet.{
  QuietStep, quiet_order, clock-IsQuiet, load-IsQuiet, move-IsQuiet, identity-IsQuiet,
  dispatch_authority-IsQuiet, claim_checks-IsQuiet,
}
use pay_ops.Remediation.Broker.Payments.{
  dispatched, dispatched-cons_eq, dispatched-cons_ne, claims-cons_executing, claims-Run, IsSafe,
  HasClaim, IsSafe-QuietStep, IsSafe-quiet, HasClaim-quiet,
}

module _ {Json World Text : Type 0} ⦃text_eq : Eq Text⦄ (platform : Platform Json)
    (codec : Codec ActionRecord Text) (host : Host World (action_digest platform) codec)
    (mode : OperationMode) where
  abbrev Safe : State World Text → Type 0
  Safe = IsSafe platform codec host mode

  abbrev Claimed : String → State World Text → Type 0
  Claimed = HasClaim platform codec host mode

  -- From `P`, the call leaves every effect paid for, however it ends.
  abbrev Pays : {A : Type 0} → (State World Text → Type 0) → Exec (State World Text) A → Type 0
  Pays P m = Triple P m (λ _. Safe) Safe

  -- A call that hands no effect to the backend, and then another one.
  quiet_then :
      {A B : Type 0} {m : Exec (State World Text) A} {k : A → Exec (State World Text) B}
      {Q : B → State World Text → Type 0}
      → Within (QuietStep platform codec host mode) m
      → ((a : A) → Triple Safe (k a) Q Safe)
      → Triple Safe (m >>= k) Q Safe
  quiet_then q k =
      Triple-bind Safe _ _ (λ _. Safe) _ Safe (IsSafe-quiet platform codec host mode q) k

  -- The effect uses the claim up.
  effect-IsSafe :
      (a : Action) (id : String) → Pays (Claimed id) (effect platform codec host mode a id)
  unfolding effect
  effect-IsSafe a id = record {
    at = λ s h. split s h (host.execute a id s.env) (host.execute-Run a id s.env);
  }
    where
      after :
          (s : State World Text) (env : Env World Text)
          → Claimed id s
          → Run (action_digest platform) codec s.env.db env.db
          → Safe (record { env = env; effects = record { key = id; action = a } ∷ s.effects })
      after s env h run = record {
        valid = Run-IsValid (action_digest platform) codec run h.safe.valid;
        paid = λ j. elim (String_discrete id j) [
          | yes e ↦ rw (dispatched-cons_eq (record { key = id; action = a }) j s.effects e) (
              omega (
                arith,
                subst (λ i. suc (dispatched i s.effects) ≤ claims (history i s.env.db.audit)) e
                    h.unused,
                claims-Run (action_digest platform) codec j run,
              ))
          | no n ↦
              rw (dispatched-cons_ne (record { key = id; action = a }) j s.effects n)
                (omega (arith, h.safe.paid j, claims-Run (action_digest platform) codec j run))
        ];
      }

      split :
          (s : State World Text)
          → Claimed id s
          → (x : Result EffectReceipt × Env World Text)
          → Run (action_digest platform) codec s.env.db x.1.db
          → Holds
              (λ _. Safe)
              Safe
              (x.0, record { env = x.1; effects = record { key = id; action = a } ∷ s.effects })
      split s h (ok receipt, env) run = after s env h run
      split s h (err e, env) run = after s env h run

  checked_effect-IsSafe :
      (r : ActionRecord) → Pays (Claimed r.action_id) (checked_effect platform codec host mode r)
  unfolding checked_effect
  checked_effect-IsSafe r =
      Triple-bind _ _ _ (λ _. Safe) _ _ (effect-IsSafe r.proposal r.action_id)
        λ receipt. IsSafe-quiet platform codec host mode (
          Within-bind (quiet_order platform codec host mode) _ _
            (Within-guard (quiet_order platform codec host mode) _ _)
            (λ _. Within-pure (quiet_order platform codec host mode) receipt))

  settle-IsSafe :
      (r : ActionRecord) (subject : String) (receipt : Option EffectReceipt)
      → Pays Safe (settle platform codec host mode r subject receipt)
  unfolding settle
  settle-IsSafe r subject none =
      IsSafe-quiet platform codec host mode (move-IsQuiet platform codec host mode _ _ _ _ _ _)
  settle-IsSafe r subject (some receipt) =
      IsSafe-quiet platform codec host mode (move-IsQuiet platform codec host mode _ _ _ _ _ _)

  run_effect-IsSafe :
      (r : ActionRecord) (subject : String)
      → Pays (Claimed r.action_id) (run_effect platform codec host mode r subject)
  unfolding run_effect
  run_effect-IsSafe r subject =
      Triple-bind _ _ _ (λ _. Safe) _ _
        (Triple-try _ _ _ _ _ Safe _
          (Triple-bind _ _ _ (λ _. Safe) _ _ (checked_effect-IsSafe r)
            (λ receipt.
              IsSafe-quiet platform codec host mode
                (Within-pure (quiet_order platform codec host mode) _)))
          (λ e.
            IsSafe-quiet platform codec host mode
              (Within-pure (quiet_order platform codec host mode) _))
          (λ s h. h))
        (settle-IsSafe r subject)

  settle_authority-IsSafe :
      (r : ActionRecord) (subject : String) (granted : Bool)
      → Pays (Claimed r.action_id) (settle_authority platform codec host mode r subject granted)
  unfolding settle_authority
  settle_authority-IsSafe r subject true = run_effect-IsSafe r subject
  settle_authority-IsSafe r subject false =
      Triple-weaken Safe _ _ _ _ _ _
        (IsSafe-quiet platform codec host mode (move-IsQuiet platform codec host mode _ _ _ _ _ _))
        (λ s h. h.safe) (λ a s h. h) (λ s h. h)

  dispatch-IsSafe :
      (r : ActionRecord) (a : Approval) (subject : String) (deadline : Time)
      → Pays (Claimed r.action_id) (dispatch platform codec host mode r a subject deadline)
  unfolding dispatch
  dispatch-IsSafe r a subject deadline =
      Triple-bind _ _ _ (λ _. Claimed r.action_id) _ _
        (Triple-try _ _ _ _ _ (Claimed r.action_id) _
          (HasClaim-quiet platform codec host mode r.action_id (
            Within-bind (quiet_order platform codec host mode) _ _
              (dispatch_authority-IsQuiet platform codec host mode r a subject deadline)
              (λ _. Within-pure (quiet_order platform codec host mode) true)))
          (λ e.
            Triple-weaken (Claimed r.action_id) _ _ _ _ _ _
              (HasClaim-quiet platform codec host mode r.action_id
                (Within-pure (quiet_order platform codec host mode) false))
              (λ s h. h) (λ a s h. h) (λ s h. h.safe))
          (λ s h. h.safe))
        (settle_authority-IsSafe r subject)

  -- The claim that `_dispatch` is given: one of the record's own action.
  abbrev HoldsClaim : ActionRecord → ActionRecord → State World Text → Type 0
  HoldsClaim r claimed s = Claimed r.action_id s × (claimed.action_id ≡ r.action_id)

  claimed_state :
      (r : ActionRecord) (subject : String) (now : Time) (s : State World Text)
      (x : Result ActionRecord × Db Text)
      → Safe s
      → Run (action_digest platform) codec s.env.db x.1
      → Ended
          (action_digest platform)
          codec
          r
          executing
          subject
          "DISPATCH"
          (moved r executing none none now)
          s.env.db
          x
      → Holds (HoldsClaim r) Safe (x.0, record s { env = record s.env { db = x.1 } })
  claimed_state r subject now s (ok c, db') h run (same, p) = (
    record {
      safe = IsSafe-QuietStep platform codec host mode s _ (record { effects = refl; run = run }) h;
      unused = rw p.audit (
          omega (
            arith,
            h.paid r.action_id,
            claims-cons_executing r.action_id
                (audit_row (moved r executing none none now) subject "DISPATCH") s.env.db.audit refl
                refl,
          ));
    },
    rw same refl,
  )
  claimed_state r subject now s (err e, db') h run same =
      IsSafe-QuietStep platform codec host mode s _ (record { effects = refl; run = run }) h

  stored_claim :
      (r : ActionRecord) (subject : String) (now : Time)
      → Triple Safe
          (stored platform codec host mode (
            transition (action_digest platform) codec r executing subject "DISPATCH" none none now))
          (HoldsClaim r)
          Safe
  unfolding stored
  stored_claim r subject now = record {
    at = λ s h.
        claimed_state r subject now s
          (transition (action_digest platform) codec r executing subject "DISPATCH" none none now
            s.env.db)
          h (next here (transitioned s.env.db r executing subject "DISPATCH" none none now))
          (transition-Ended (action_digest platform) codec r executing subject "DISPATCH" none none
            now s.env.db);
  }

  move_claim :
      (r : ActionRecord) (subject : String)
      → Triple Safe
          (move platform codec host mode r executing subject "DISPATCH" none none)
          (HoldsClaim r)
          Safe
  unfolding move
  move_claim r subject =
      quiet_then (clock-IsQuiet platform codec host mode) (stored_claim r subject)

  claim-IsSafe :
      (r : ActionRecord) (a : Approval) (subject : String)
      → Pays Safe (claim platform codec host mode r a subject)
  unfolding claim
  claim-IsSafe r a subject =
      quiet_then (claim_checks-IsQuiet platform codec host mode r a) λ deadline.
        Triple-bind _ _ _ (HoldsClaim r) _ _ (move_claim r subject) λ claimed.
          Triple-weaken (Claimed claimed.action_id) _ _ _ _ _ _
            (dispatch-IsSafe claimed a subject deadline)
            (λ s h. subst (λ i. Claimed i s) (sym h.1) h.0) (λ a s h. h) (λ s h. h)

  claim_approved-IsSafe :
      (r : ActionRecord) (o : Option Approval) (subject : String)
      → Pays Safe (claim_approved platform codec host mode r o subject)
  claim_approved-IsSafe r none subject =
      IsSafe-quiet platform codec host mode (Within-raise (quiet_order platform codec host mode) _)
  claim_approved-IsSafe r (some a) subject = elim (Bool-cases (is_approved r.state)) [
    | inl e ↦ rw e (claim-IsSafe r a subject)
    | inr e ↦ rw e (
        IsSafe-quiet platform codec host mode
          (Within-raise (quiet_order platform codec host mode) _))
  ]

  unless_dispatched-IsSafe :
      (r : ActionRecord) (subject : String)
      → Pays Safe (claim_unless_dispatched platform codec host mode r subject)
  unless_dispatched-IsSafe r subject = elim (Bool-cases (was_dispatched r.state)) [
    | inl e ↦ rw e (
        IsSafe-quiet platform codec host mode
          (Within-pure (quiet_order platform codec host mode) r))
    | inr e ↦ rw e (claim_approved-IsSafe r r.approval subject)
  ]

  -- `execute` pays for every effect by a claim of its own.
  pub execute-IsSafe :
      (id subject : String) → Pays Safe (execute platform codec host mode id subject)
  unfolding execute
  execute-IsSafe id subject = quiet_then (load-IsQuiet platform codec host mode id) λ r.
      quiet_then (identity-IsQuiet platform codec host mode _ _ _) λ _.
        quiet_then (Within-guard (quiet_order platform codec host mode) _ _)
          λ _. unless_dispatched-IsSafe r subject
