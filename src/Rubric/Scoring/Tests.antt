-- ===== src/Rubric/Scoring/Tests.antt =====
-- Assessments scored against the published rubric (packages/rubric/src/scoring.ts).
use vibefy.Prelude.{
  ℕ, ◌*◌, ◌%◌, ◌≤◌, leb, if◌then◌else◌, mem_cons_elim, String, true, false, some, List, [], ◌∷◌,
  Memᴰ, Sublistᴰ, ◌≡◌, refl, ◌↔◌, ok, arith,
}
use vibefy.Rubric.Types.{
  FindingSeverity, ConfidenceLevel, ScoringFinding, ScoringInput, DimensionScore, AppliedGate,
  ScoringResult, Blocker, RubricGate, finite,
}
use vibefy.Rubric.Fixed.{scale, clamp_remaining, round, last_place}
use vibefy.Rubric.Registry.Memo.{IsScorable, check_rubric-IsScorable}
use vibefy.Rubric.Registry.Published.{critical_security, v1_1_0, v1_1_0_checks}
use vibefy.Rubric.Scoring.{
  band_for, finding_penalty, penalty_from, score_dimension, score_dimensions, weighted,
  gate_matches, gate_triggers, applied, applicable_gates, cap_by_gates, gate_blockers,
  floor_blockers, certification_blockers, overall_of, score_with,
}
use vibefy.Rubric.Scoring.Certification.{MeetsFloors, eligible_iff}
use vibefy.Rubric.Scoring.Monotone.{more_findings_never_help}
use vibefy.Rubric.Scoring.Total.{IsComplete, score_with_total}

abbrev minor : ScoringFinding
minor = record {
  rule_id = "UX-01";
  dimension = "practicality_ux";
  severity = FindingSeverity.medium;
  confidence = ConfidenceLevel.medium;
  is_published = true;
}

abbrev exposure : ScoringFinding
exposure = record {
  rule_id = "PRI-02";
  dimension = "data_privacy_practice";
  severity = FindingSeverity.critical;
  confidence = ConfidenceLevel.low;
  is_published = true;
}

abbrev withheld : ScoringFinding
withheld = record exposure { is_published = false }

abbrev input_of : List ScoringFinding → ScoringInput
input_of fs = record { rubric_version = "1.1.0"; findings = fs; core_flows_unreachable = false }

abbrev scored : String → ℕ → ℕ → ℕ → String → DimensionScore
scored name score weight penalty band = record {
  dimension = name;
  score = score;
  weight = weight;
  penalty_applied = penalty;
  band = band;
}

-- 15 per cent of 93.7, and full marks for the rest.
abbrev minor_result : ScoringResult
minor_result = record {
  rubric_version = "1.1.0";
  overall_score = 990600;
  band = "Exemplary";
  dimensions =
      scored "functional_integrity" 1000000 2500 0 "Exemplary"
      ∷ scored "security_posture" 1000000 2500 0 "Exemplary"
      ∷ scored "data_privacy_practice" 1000000 1500 0 "Exemplary"
      ∷ scored "practicality_ux" 937000 1500 63000 "Exemplary"
      ∷ scored "production_readiness" 1000000 1000 0 "Exemplary"
      ∷ scored "store_distribution_readiness" 1000000 1000 0 "Exemplary"
      ∷ [];
  gates_applied = [];
  certification_eligible = true;
  certification_blockers = [];
}

-- The privacy exposure costs 18 points of one dimension, and the gate caps the whole at 49.
abbrev exposure_result : ScoringResult
exposure_result = record {
  rubric_version = "1.1.0";
  overall_score = 490000;
  band = "Weak";
  dimensions =
      scored "functional_integrity" 1000000 2500 0 "Exemplary"
      ∷ scored "security_posture" 1000000 2500 0 "Exemplary"
      ∷ scored "data_privacy_practice" 820000 1500 180000 "Strong"
      ∷ scored "practicality_ux" 937000 1500 63000 "Exemplary"
      ∷ scored "production_readiness" 1000000 1000 0 "Exemplary"
      ∷ scored "store_distribution_readiness" 1000000 1000 0 "Exemplary"
      ∷ [];
  gates_applied = applied critical_security ∷ [];
  certification_eligible = false;
  certification_blockers =
      Blocker.gate_blocks "GATE-CRITICAL-SECURITY" "Critical security or privacy finding"
      ∷ Blocker.below_threshold 490000 700000
      ∷ [];
}

minor_scores : score_with v1_1_0 (input_of (minor ∷ [])) ≡ ok minor_result
unfolding score_with score_dimensions score_dimension penalty_from finding_penalty clamp_remaining
    round band_for weighted applicable_gates gate_triggers gate_matches cap_by_gates overall_of
    certification_blockers gate_blockers floor_blockers
minor_scores = refl

exposure_scores : score_with v1_1_0 (input_of (minor ∷ exposure ∷ [])) ≡ ok exposure_result
unfolding score_with score_dimensions score_dimension penalty_from finding_penalty clamp_remaining
    round band_for weighted applicable_gates gate_triggers gate_matches cap_by_gates overall_of
    certification_blockers gate_blockers floor_blockers
exposure_scores = refl

scorable : IsScorable v1_1_0
scorable = check_rubric-IsScorable v1_1_0 v1_1_0_checks

complete_penalties :
    (s : FindingSeverity) → (p : ℕ) × (v1_1_0.scoring.severity_penalties s ≡ some p)
complete_penalties FindingSeverity.critical = (450000, refl)
complete_penalties FindingSeverity.high = (220000, refl)
complete_penalties FindingSeverity.medium = (90000, refl)
complete_penalties FindingSeverity.low = (30000, refl)
complete_penalties FindingSeverity.info = (0, refl)

complete_multipliers :
    (c : ConfidenceLevel) → (m : ℕ) × (v1_1_0.scoring.confidence_multipliers c ≡ some m)
complete_multipliers ConfidenceLevel.high = (10000, refl)
complete_multipliers ConfidenceLevel.medium = (7000, refl)
complete_multipliers ConfidenceLevel.low = (4000, refl)

abbrev band_name : ℕ → String
band_name score =
    if leb 900000 score
    then "Exemplary"
    else if leb 750000 score
    then "Strong"
    else if leb 600000 score
    then "Adequate"
    else if leb 400000 score
    then "Weak"
    else "Not ready"

complete_bands :
    (score : ℕ)
    → score ≤ 100 * scale
    → score % last_place 2 ≡ 0
    → band_for v1_1_0 score ≡ ok (band_name score)
unfolding band_for
complete_bands score h k = ground arith

whole_cap :
    (g : RubricGate)
    → Memᴰ g v1_1_0.gates
    → (cap : ℕ) → g.cap_overall_at ≡ finite cap
    → cap % last_place 2 ≡ 0
whole_cap =
    mem_cons_elim Whole (λ cap e. ground arith)
      (mem_cons_elim Whole (λ cap e. ground arith)
        (mem_cons_elim Whole (λ cap e. ground arith) (λ g m. elim m [ ])))
  where
    Whole : RubricGate → Type 0
    Whole g = (cap : ℕ) → g.cap_overall_at ≡ finite cap → cap % last_place 2 ≡ 0

complete : IsComplete v1_1_0
complete = record {
  decimals = omega arith;
  penalties = complete_penalties;
  multipliers = complete_multipliers;
  bands = λ score h k. (band_name score, complete_bands score h k);
  caps = whole_cap;
}

score_with_total_example :
    (s : ScoringResult) × (score_with v1_1_0 (input_of (minor ∷ exposure ∷ [])) ≡ ok s)
score_with_total_example =
    score_with_total v1_1_0 (input_of (minor ∷ exposure ∷ [])) scorable complete

eligible_iff_example : (minor_result.certification_eligible ≡ true) ↔ (
    ((g : AppliedGate) → Memᴰ g minor_result.gates_applied → g.blocks_certification ≡ false)
    × (700000 ≤ minor_result.overall_score)
    × MeetsFloors v1_1_0.certification.dimension_floors minor_result.dimensions)
eligible_iff_example = eligible_iff v1_1_0 (input_of (minor ∷ [])) minor_scores

more_findings_never_help_example :
    (exposure_result.overall_score ≤ minor_result.overall_score)
    × (exposure_result.certification_eligible ≡ true → minor_result.certification_eligible ≡ true)
more_findings_never_help_example =
    more_findings_never_help v1_1_0 (input_of (minor ∷ [])) (input_of (minor ∷ exposure ∷ []))
      (Sublistᴰ.cons-cons refl (Sublistᴰ.cons Sublistᴰ.slnil)) refl minor_scores exposure_scores
