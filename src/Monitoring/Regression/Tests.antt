-- ===== src/Monitoring/Regression/Tests.antt =====
-- Two assessments judged (packages/monitoring/src/regression.ts).
use vibefy.Prelude.{true, false, [], ◌∷◌, ◌≡◌, ◌↔◌}
use vibefy.Monitoring.Types.{AssessmentSnapshot, Drift}
use vibefy.Monitoring.Drift.{text_before, drift_of}
use vibefy.Monitoring.Regression.{default_materiality_policy, RegressionRuleId, assess_materiality}
use vibefy.Monitoring.Regression.Rules.{Fires}
use vibefy.Monitoring.Regression.Verdict.{suspend_iff}

abbrev before : AssessmentSnapshot
before = record {
  assessment_id = "a1";
  assessed_at = 1000;
  rubric_version = "1.1.0";
  overall_score = 823400;
  certification_eligible = true;
  dimensions = ("security_posture", 780000) ∷ [];
  findings = [];
  not_tested_count = 2;
}

abbrev after : AssessmentSnapshot
after = record before {
  assessment_id = "a2";
  overall_score = 703400;
  dimensions = ("security_posture", 560000) ∷ [];
}

abbrev fallen : Drift
fallen = drift_of text_before before after

suspend_iff_example :
    ((assess_materiality fallen default_materiality_policy).suspend_badge ≡ true) ↔ (
      (fallen.comparable ≡ true)
      × (fallen.coverage_shrank ≡ false)
      × ((id : RegressionRuleId) × Fires id fallen default_materiality_policy))
suspend_iff_example = suspend_iff fallen default_materiality_policy
