-- ===== src/Sandbox.antt =====
-- src/payops/sandbox: the synthetic payment services that faults are injected into.
pub mod Samples
pub mod Origins
