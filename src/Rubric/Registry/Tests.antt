-- ===== src/Rubric/Registry/Tests.antt =====
-- The registry of packages/rubric/src/rubric.ts at the published rubric.
use text.Mathlib.TextEquality.{eq_iff}
use vibefy.Prelude.{text_eq, arith}
use vibefy.Rubric.Registry.{lookup_version}
use vibefy.Rubric.Registry.Published.{registry}
use vibefy.Rubric.Registry.Memo.{IsKeyed}

registry-IsKeyed : IsKeyed registry
unfolding lookup_version
registry-IsKeyed version r h = ground (arith, eq_iff "1.1.0" version)
