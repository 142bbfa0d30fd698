-- ===== src/Policy.antt =====
-- packages/policy: an organisation's own bar, applied to an assessment.
pub mod Evaluate
