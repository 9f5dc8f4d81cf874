-- ===== src/Orchestrator.antt =====
-- src/payops/orchestrator: model decisions, their budget, and the investigation that they serve.
pub mod Reasoning
pub mod Usage
pub mod Budget
pub mod Baseline
pub mod Investigation
