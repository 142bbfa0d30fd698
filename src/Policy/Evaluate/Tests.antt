-- ===== src/Policy/Evaluate/Tests.antt =====
-- A profile applied to an assessment (packages/policy/src/evaluate.ts).
use vibefy.Prelude.{String, true, false, some, [], ◌∷◌, ◌≡◌, ◌↔◌, refl, text_eq}
use vibefy.Prelude.Dict.{lookup, insert, insert_all}
use vibefy.Policy.Evaluate.{
  PolicyProfile, OpenFinding, PolicySubject, open_above, severity_rank, worst_from, over_ceiling,
  severity_failures, floor_failures, failures_of, evaluate_policy,
}
use vibefy.Policy.Evaluate.Meets.{Meets, meets_policy_iff}

abbrev bank : PolicyProfile
bank = record {
  id = "p1";
  name = "Bank";
  min_overall_score = some 800000;
  dimension_floors = ("security_posture", 750000) ∷ [];
  max_open_severity = some "medium";
  require_certification = true;
  require_store_readiness = false;
}

abbrev finding : String → String → OpenFinding
finding severity title = record {
  rule_id = "SEC-01";
  dimension = "security_posture";
  severity = severity;
  title = title;
}

abbrev sound : PolicySubject
sound = record {
  assessment_id = "a1";
  overall_score = 850000;
  certification_eligible = true;
  dimensions = ("security_posture", 900000) ∷ [];
  open_findings = finding "low" "A verbose header" ∷ [];
  intended_for_app_store = false;
}

abbrev leaky : PolicySubject
leaky = record sound {
  open_findings =
      finding "high" "A key in the bundle"
      ∷ finding "low" "A verbose header"
      ∷ finding "critical" "An open table"
      ∷ [];
}

sound_meets : (evaluate_policy bank sound).meets_policy ≡ true
unfolding evaluate_policy failures_of severity_failures floor_failures severity_rank over_ceiling
    lookup insert insert_all
sound_meets = refl

leaky_failures :
    (evaluate_policy bank leaky).failures
    ≡ open_above 2 "medium" (finding "critical" "An open table") ∷ []
unfolding evaluate_policy failures_of severity_failures floor_failures severity_rank over_ceiling
    lookup insert insert_all worst_from
leaky_failures = refl

meets_policy_iff_example : ((evaluate_policy bank sound).meets_policy ≡ true) ↔ Meets bank sound
meets_policy_iff_example = meets_policy_iff bank sound
