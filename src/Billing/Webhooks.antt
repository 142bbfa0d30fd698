-- ===== src/Billing/Webhooks.antt =====
-- Applying a provider's event to our own records: packages/billing/src/webhooks.ts, the routes that
-- call it (apps/web/app/api/stripe/webhook/route.ts and its twin for paystack), and the transaction
-- of apps/web/lib/sql.ts.
pub mod Types
pub mod Rows
pub mod Apply
pub mod Deliver
pub mod Replay
pub mod Refunds
pub mod Recorded
pub mod Isolation
mod Tests
