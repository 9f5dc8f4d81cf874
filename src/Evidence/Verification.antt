-- ===== src/Evidence/Verification.antt =====
-- src/payops/evidence/verification.py: the check of retained evidence, whose parts read artifacts: those
-- of payment windows, trace spans, trace logs and retrieved documents are parameters.
use pay_ops.Base.{◌==◌, string_eq, if◌then◌else◌}
use pay_ops.Base.Result.{Result, ok, err, integrity, is_value_error, ◌>>=◌}
use pay_ops.Base.Json.{Members}
use pay_ops.Contracts.{
  EvidenceItem, Source, kubernetes, prometheus, log, trace, deployment, payment, runbook, memory,
}

pub record Verifiers : Type 0 where
  pub verify : EvidenceItem → Result Members
  pub verify_payment_window : EvidenceItem → Result (Unit {0})
  pub verify_trace_span : EvidenceItem → Result (Unit {0})
  pub verify_trace_log : EvidenceItem → Result (Unit {0})
  pub verify_retrieval : EvidenceItem → Result (Unit {0})

-- `except ValueError: raise EvidenceIntegrityError`
abbrev pub as_integrity {ℓ} : {A : Type ℓ} → Result A → Result A
as_integrity (ok a) = ok a
as_integrity (err e) = if is_value_error e then err integrity else err e

abbrev pub verify_source : Verifiers → EvidenceItem → Source → Result (Unit {0})
verify_source v item payment = v.verify_payment_window item
verify_source v item trace = v.verify_trace_span item
verify_source v item log =
    if item.query == "trace.console-log.v1" then v.verify_trace_log item else ok tt
verify_source v item runbook = v.verify_retrieval item
verify_source v item memory = v.verify_retrieval item
verify_source v item kubernetes = ok tt
verify_source v item prometheus = ok tt
verify_source v item deployment = ok tt

-- `verify_evidence`
unfoldable pub verify_evidence : Verifiers → EvidenceItem → Result (Unit {0})
verify_evidence v item = as_integrity (v.verify item >>= λ _. verify_source v item item.source)
