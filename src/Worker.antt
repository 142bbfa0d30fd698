-- ===== src/Worker.antt =====
-- apps/worker: the process that runs what was asked for.
pub mod Queue
pub mod Badges
