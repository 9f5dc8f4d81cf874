-- ===== src/Remediation.antt =====
-- src/payops/remediation: approval-gated actions, their persistence, and their executors.
pub mod Records
pub mod Store
pub mod Host
pub mod Broker
pub mod Examples
pub mod Traffic
pub mod Deployment
