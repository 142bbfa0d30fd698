-- ===== src/Worker/Badges.antt =====
-- apps/worker/src/badge.ts: the sweep that issues badges and the one that takes them down.
pub mod Types
pub mod Slug
pub mod Candidates
pub mod Issue
pub mod Lifecycle
pub mod Events
mod Tests
