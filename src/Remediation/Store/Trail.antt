-- ===== src/Remediation/Store/Trail.antt =====
-- The audit trail of one action in src/payops/remediation/store.py: a path of legal transitions.
use pay_ops.Base.{ℕ, suc, ◌+◌, ◌≡◌, refl, List, [], ◌∷◌, In, arith, ◌∙◌}
use pay_ops.Remediation.Records.{ActionState, proposed, approved, executing}
use pay_ops.Remediation.Store.{AuditRow, transitions}

-- The rows of one action, newest first, that lead from the proposal to a state and a revision.
pub data Trail : List AuditRow → ActionState → ℕ → Type 0 where
  begun :
      (row : AuditRow) → row.event.state ≡ proposed → row.revision ≡ 0 → Trail (row ∷ []) proposed 0
  moved :
      {rows : List AuditRow} {s : ActionState} {n : ℕ} (row : AuditRow) (s' : ActionState)
      → Trail rows s n
      → In s' (transitions s)
      → row.event.state ≡ s'
      → row.revision ≡ suc n
      → Trail (row ∷ rows) s' (suc n)

abbrev pub is_executing : ActionState → ℕ
is_executing executing = 1
is_executing _ = 0

-- How often the action was claimed for execution.
abbrev pub claims : List AuditRow → ℕ
claims [] = 0
claims (row ∷ rows) = is_executing row.event.state + claims rows

-- How many claims a state tells of.
abbrev pub claims_of : ActionState → ℕ
claims_of proposed = 0
claims_of approved = 0
claims_of _ = 1

claims_step :
    (s s' : ActionState) → In s' (transitions s) → is_executing s' + claims_of s ≡ claims_of s'
claims_step s s' h = ground arith

-- The state of an action tells exactly how often it was claimed.
pub claims-Trail :
    {rows : List AuditRow} {s : ActionState} {n : ℕ} → Trail rows s n → claims rows ≡ claims_of s
claims-Trail (begun row e r) = rw e refl
claims-Trail (moved {s = s} row s' t legal e r) = rw (e, claims-Trail t) (claims_step s s' legal)

pub begun_at :
    (row : AuditRow) (rows : List AuditRow) (s : ActionState) (n : ℕ)
    → rows ≡ []
    → s ≡ proposed
    → n ≡ 0
    → row.event.state ≡ s
    → row.revision ≡ n
    → Trail (row ∷ rows) s n
begun_at row rows s n empty e z es en = rw (empty, e, z) (begun row (es ∙ e) (en ∙ z))

pub moved_at :
    {rows : List AuditRow} {s : ActionState} {n : ℕ} (row : AuditRow) (s' : ActionState) (m : ℕ)
    → Trail rows s n
    → In s' (transitions s)
    → m ≡ suc n
    → row.event.state ≡ s'
    → row.revision ≡ m
    → Trail (row ∷ rows) s' m
moved_at row s' m t legal e es en = rw e (moved row s' t legal es (en ∙ e))
