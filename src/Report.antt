-- ===== src/Report.antt =====
-- packages/report: what a customer reads of an assessment.
pub mod Redact
