-- ===== src/Remediation/Broker/Payments.antt =====
-- Effects and claims in src/payops/remediation/broker.py: the count of effects handed to the backend
-- against the count of claims in the audit trail.
use pay_ops.Base.Table.{Codec}
use pay_ops.Base.{
  ℕ, ◌+◌, ◌≤◌, suc, String, ◌≡◌, ◌≢◌, List, [], ◌∷◌, Eq, ◌==◌, string_eq, arith, if◌then◌else◌,
  Bool-cases, inl, inr, not, ◌||◌, ◌!=◌, nat_eq,
}
use pay_ops.Base.Result.{Result, ok, err}
use pay_ops.Base.Action.{Exec}
use pay_ops.Base.Action.Triple.{Within, Triple, Triple-Within}
use pay_ops.Policy.Records.{OperationMode, Action}
use pay_ops.Policy.External.{Platform}
use pay_ops.Policy.{action_digest}
use pay_ops.Remediation.Records.{ActionState, executing, ActionRecord, is_proposed}
use pay_ops.Remediation.Store.{Db, AuditRow, history, create, taken, moved, audit_row}
use pay_ops.Remediation.Store.Rows.{history-cons_eq}
use pay_ops.Remediation.Store.Trail.{claims}
use pay_ops.Remediation.Store.Invariant.{IsValid}
use pay_ops.Remediation.Store.Outcomes.{Ended, transition-Ended}
use pay_ops.Remediation.Store.Claims.{Run, here, next, created, transitioned, Run-IsValid}
use pay_ops.Remediation.Host.{Host}
use pay_ops.Remediation.Broker.{Effect, State}
use pay_ops.Remediation.Broker.Quiet.{QuietStep}

-- How often the backend was handed an effect with this key.
abbrev pub dispatched : String → List Effect → ℕ
dispatched id [] = 0
dispatched id (e ∷ es) = (if e.key == id then 1 else 0) + dispatched id es

pub dispatched-cons_eq :
    (e : Effect) (id : String) (es : List Effect)
    → e.key ≡ id
    → dispatched id (e ∷ es) ≡ suc (dispatched id es)
dispatched-cons_eq e id es h = ground (arith, string_eq.beq_iff e.key id)

pub dispatched-cons_ne :
    (e : Effect) (id : String) (es : List Effect)
    → e.key ≢ id
    → dispatched id (e ∷ es) ≡ dispatched id es
dispatched-cons_ne e id es h = ground (arith, string_eq.beq_iff e.key id)

pub claims-cons_executing :
    (id : String) (row : AuditRow) (rows : List AuditRow)
    → row.action_id ≡ id
    → row.event.state ≡ executing
    → claims (history id (row ∷ rows)) ≡ suc (claims (history id rows))
claims-cons_executing id row rows h e = rw (history-cons_eq id row rows h) (rw e (omega arith))

claims_cons :
    (id : String) (row : AuditRow) (rows : List AuditRow)
    → claims (history id rows) ≤ claims (history id (row ∷ rows))
claims_cons id row rows = elim (Bool-cases (row.action_id == id)) [
  | inl same ↦ rw same (omega arith)
  | inr other ↦ rw other (omega arith)
]

module _ {Text : Type 0} ⦃text_eq : Eq Text⦄ (digest : Action → String)
    (codec : Codec ActionRecord Text) where
  claims-create :
      (r : ActionRecord) (db : Db Text) (id : String)
      → claims (history id db.audit) ≤ claims (history id (create digest codec r db).1.audit)
  unfolding create
  claims-create r db id = elim (Bool-cases (not (is_proposed r.state) || r.revision != 0)) [
    | inl refused ↦ rw refused (omega arith)
    | inr fresh ↦ rw fresh (elim (Bool-cases (taken digest codec r db)) [
      | inl dup ↦ rw dup (omega arith)
      | inr free ↦ rw free (claims_cons id (audit_row r r.proposer "POLICY_REVIEWED") db.audit)
    ])
  ]

  Ended-claims :
      (before after : ActionRecord) (state : ActionState) (actor reason id : String) (db : Db Text)
      (x : Result ActionRecord × Db Text)
      → Ended digest codec before state actor reason after db x
      → claims (history id db.audit) ≤ claims (history id x.1.audit)
  Ended-claims before after state actor reason id db (ok r, db') (_, p) =
      rw p.audit (claims_cons id (audit_row after actor reason) db.audit)
  Ended-claims before after state actor reason id db (err e, db') same = rw same (omega arith)

  -- Claims are never taken back.
  pub claims-Run :
      (id : String) {db db' : Db Text}
      → Run digest codec db db'
      → claims (history id db.audit) ≤ claims (history id db'.audit)
  claims-Run id here = omega arith
  claims-Run id (next r (created db x c)) = omega (arith, claims-Run id r, claims-create x db id)
  claims-Run id (next r (transitioned db b s a w p e t)) = omega (
    arith,
    claims-Run id r,
    Ended-claims b (moved b s p e t) s a w id db _ (transition-Ended digest codec b s a w p e t db),
  )

module _ {Json World Text : Type 0} ⦃text_eq : Eq Text⦄ (platform : Platform Json)
    (codec : Codec ActionRecord Text) (host : Host World (action_digest platform) codec)
    (mode : OperationMode) where
  pub record IsSafe (s : State World Text) : Type 0 where
    pub valid : IsValid (action_digest platform) codec s.env.db
    pub paid : (id : String) → dispatched id s.effects ≤ claims (history id s.env.db.audit)

  -- One claim of action `id` has not been used yet.
  pub record HasClaim (id : String) (s : State World Text) : Type 0 where
    pub safe : IsSafe s
    pub unused : suc (dispatched id s.effects) ≤ claims (history id s.env.db.audit)

  pub IsSafe-QuietStep :
      (s t : State World Text) → QuietStep platform codec host mode s t → IsSafe s → IsSafe t
  IsSafe-QuietStep s t q h = record {
    valid = Run-IsValid (action_digest platform) codec q.run h.valid;
    paid = λ id.
        rw q.effects (omega (arith, h.paid id, claims-Run (action_digest platform) codec id q.run));
  }

  HasClaim-QuietStep :
      (id : String) (s t : State World Text)
      → QuietStep platform codec host mode s t
      → HasClaim id s
      → HasClaim id t
  HasClaim-QuietStep id s t q h = record {
    safe = IsSafe-QuietStep s t q h.safe;
    unused =
        rw q.effects (omega (arith, h.unused, claims-Run (action_digest platform) codec id q.run));
  }

  pub IsSafe-quiet :
      {A : Type 0} {m : Exec (State World Text) A}
      → Within (QuietStep platform codec host mode) m
      → Triple IsSafe m (λ _. IsSafe) IsSafe
  IsSafe-quiet q = Triple-Within (QuietStep platform codec host mode) IsSafe _ IsSafe-QuietStep q

  pub HasClaim-quiet :
      {A : Type 0} {m : Exec (State World Text) A} (id : String)
      → Within (QuietStep platform codec host mode) m
      → Triple (HasClaim id) m (λ _. HasClaim id) (HasClaim id)
  HasClaim-quiet id q =
      Triple-Within (QuietStep platform codec host mode) (HasClaim id) _ (HasClaim-QuietStep id) q
