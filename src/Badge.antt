-- ===== src/Badge.antt =====
-- packages/badge: what a badge attests, and how a third party checks it.
pub mod Json
pub mod Payload
pub mod Sign
