-- ===== src/Billing.antt =====
-- packages/billing: what a plan permits, which plan applies, and what a provider's events change.
pub mod Entitlements
pub mod Webhooks
