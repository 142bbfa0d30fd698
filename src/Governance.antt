-- ===== src/Governance.antt =====
-- packages/governance: requests of data subjects, the stop on spending, and retention.
pub mod Requests
pub mod Spend
pub mod Retention
pub mod Triage
