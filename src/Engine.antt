-- ===== src/Engine.antt =====
-- packages/engine: what bounds a run of the assessment engine.
pub mod Cost
pub mod Scope
