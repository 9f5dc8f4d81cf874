-- ===== src/Contracts/Tests.antt =====
-- The validators of src/payops/contracts/__init__.py on one report.
use pay_ops.Base.{◌≡◌, ◌↔◌}
use pay_ops.Base.Result.{ok}
use pay_ops.Contracts.{validate_citations}
use pay_ops.Contracts.Citations.{IsConsistent, validate_citations_iff}
use pay_ops.Remediation.Examples.{report}

validate_citations_iff_example : (validate_citations report ≡ ok tt) ↔ IsConsistent report
validate_citations_iff_example = validate_citations_iff report
