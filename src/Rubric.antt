-- ===== src/Rubric.antt =====
-- packages/rubric/src: the rubric as versioned data, and the scoring functions.
pub mod Types
pub mod Fixed
pub mod Registry
pub mod Scoring
