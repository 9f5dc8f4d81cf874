-- ===== src/Evaluation.antt =====
-- src/payops/evaluation: scores of diagnoses against frozen cases.
pub mod Metrics
