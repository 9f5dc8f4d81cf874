-- ===== src/Remediation/Records/Tests.antt =====
-- The validators of src/payops/remediation/contracts.py on a proposed action.
use pay_ops.Base.{◌≡◌, ◌↔◌}
use pay_ops.Base.Result.{ok}
use pay_ops.Remediation.Records.{consistent}
use pay_ops.Remediation.Records.Consistency.{IsConsistent, consistent_iff}
use pay_ops.Remediation.Examples.{plain_digest, restart_proposed}

consistent_iff_example :
    (consistent plain_digest restart_proposed ≡ ok tt) ↔ IsConsistent plain_digest restart_proposed
consistent_iff_example = consistent_iff plain_digest restart_proposed
