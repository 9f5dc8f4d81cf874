-- ===== src/Evidence.antt =====
-- src/payops/evidence: what a reasoning model is shown of the evidence of an incident.
pub mod Context
pub mod Verification
pub mod Artifacts
