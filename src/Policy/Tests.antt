-- ===== src/Policy/Tests.antt =====
-- Reviews of src/payops/policy/engine.py for one action: permitted, and refused when it is stale.
use pay_ops.Base.{◌≡◌, ◌↔◌, refl, none, seconds, ◌+◌}
use pay_ops.Base.Result.{ok}
use pay_ops.Policy.Records.{action_valid, Role-discrete, OperationMode-discrete, approval_required}
use pay_ops.Policy.{evaluate, approval, denial, read_proposal}
use pay_ops.Policy.Authority.{Approves, evaluate-approval_iff, evaluate-denial}
use pay_ops.Remediation.Examples.{plain_platform, restart, restart_context, noon}

evaluate-approval_iff_example :
    ((evaluate plain_platform restart restart_context noon ≡ ok (approval plain_platform restart))
      × ((approval plain_platform restart).decision ≡ approval_required))
    ↔ Approves plain_platform
        (read_proposal plain_platform restart)
        restart_context
        noon
        (approval plain_platform restart)
evaluate-approval_iff_example =
    evaluate-approval_iff plain_platform restart restart_context noon
      (approval plain_platform restart)

later_denied :
    evaluate plain_platform restart restart_context (noon + seconds 31)
    ≡ ok (denial "RESOURCE_NOT_CURRENT")
unfolding evaluate action_valid Role-discrete OperationMode-discrete
later_denied = refl

evaluate-denial_example :
    ((denial "RESOURCE_NOT_CURRENT").proposal ≡ none)
    × ((denial "RESOURCE_NOT_CURRENT").action_digest ≡ none)
    × ((denial "RESOURCE_NOT_CURRENT").risk_tier ≡ none)
evaluate-denial_example =
    evaluate-denial plain_platform restart restart_context (noon + seconds 31)
      (denial "RESOURCE_NOT_CURRENT") later_denied refl
