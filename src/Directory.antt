-- ===== src/Directory.antt =====
-- packages/directory/src: the public list of applications that hold a badge.
pub mod Types
pub mod Query
