-- ===== src/Orchestrator/Baseline.antt =====
-- src/payops/orchestrator/baseline.py: the deterministic diagnosis from verified runtime evidence.
pub mod Signals
pub mod Predicates
pub mod Ranking
pub mod Corroboration
mod Tests
