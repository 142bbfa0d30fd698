-- ===== src/Monitoring.antt =====
-- packages/monitoring/src, and the liveness sweep of apps/worker/src/monitoring.ts.
pub mod Types
pub mod Drift
pub mod Regression
pub mod Schedule
pub mod Liveness
