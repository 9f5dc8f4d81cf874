-- ===== src/Remediation/Store/Rows.antt =====
-- The history of an action after a write of the audit table of src/payops/remediation/store.py.
use pay_ops.Base.{String, ◌≡◌, ◌≢◌, List, ◌∷◌, string_eq, arith}
use pay_ops.Remediation.Store.{AuditRow, history}

pub history-cons_ne :
    (j : String) (row : AuditRow) (rows : List AuditRow)
    → row.action_id ≢ j
    → history j (row ∷ rows) ≡ history j rows
history-cons_ne j row rows h = ground (arith, string_eq.beq_iff row.action_id j)

pub history-cons_eq :
    (id : String) (row : AuditRow) (rows : List AuditRow)
    → row.action_id ≡ id
    → history id (row ∷ rows) ≡ row ∷ history id rows
history-cons_eq id row rows h = ground (arith, string_eq.beq_iff row.action_id id)
