-- ===== src/Rubric/Registry/Published.antt =====
-- Rubric 1.1.0 (packages/rubric/versions/1.1.0.json), the current one of the registry of
-- packages/rubric/src/rubric.ts: every number, gate, weight and criterion.
use mathlib.Core.List
use vibefy.Prelude.{ℕ, String, true, Option, none, some, List, [], ◌∷◌, ◌≡◌, refl, ok}
use vibefy.Rubric.Types.{
  FindingSeverity, ConfidenceLevel, Number, RubricBand, RubricGate, RubricDimension,
  RubricDefinition,
}
use vibefy.Rubric.Registry.{
  Registry, check_known, check_selectors, check_gate, check_gates, check_weights, weight_total,
  is_blank, check_rubric, lookup_version, assert_rubric_is_scorable, get_rubric,
}

abbrev penalties : FindingSeverity → Option ℕ
penalties FindingSeverity.critical = some 450000
penalties FindingSeverity.high = some 220000
penalties FindingSeverity.medium = some 90000
penalties FindingSeverity.low = some 30000
penalties FindingSeverity.info = some 0

abbrev multipliers : ConfidenceLevel → Option ℕ
multipliers ConfidenceLevel.high = some 10000
multipliers ConfidenceLevel.medium = some 7000
multipliers ConfidenceLevel.low = some 4000

abbrev band : ℕ → ℕ → String → RubricBand
band low top name = record { min = low; max = top; label = name }

abbrev dimension : String → ℕ → List String → RubricDimension
dimension name weight rules = record { id = name; weight = Number.finite weight; criteria = rules }

abbrev pub critical_security : RubricGate
critical_security = record {
  id = some "GATE-CRITICAL-SECURITY";
  label = some "Critical security or privacy finding";
  applies_to_dimensions = some ("security_posture" ∷ "data_privacy_practice" ∷ []);
  applies_to_rules = none;
  trigger_severity = some "critical";
  cap_overall_at = Number.finite 490000;
  blocks_certification = some true;
  rationale =
      some
        "A single critical exposure makes the rest of the score irrelevant. Encoded as a gate rather than as arithmetic so that no combination of strong dimensions can outvote it.";
}

abbrev exposed_secret : RubricGate
exposed_secret = record {
  id = some "GATE-EXPOSED-SECRET";
  label = some "Live credential exposed in client code or repository";
  applies_to_dimensions = none;
  applies_to_rules = some ("SEC-04" ∷ []);
  trigger_severity = none;
  cap_overall_at = Number.finite 390000;
  blocks_certification = some true;
  rationale =
      some
        "The most common serious defect in AI-built apps, and the one with the fastest path to real-world harm.";
}

abbrev no_coverage : RubricGate
no_coverage = record {
  id = some "GATE-NO-AUTHORISATION-COVERAGE";
  label = some "Core flows unreachable within the authorised scope";
  applies_to_dimensions = none;
  applies_to_rules = none;
  trigger_severity = none;
  cap_overall_at = Number.absent;
  blocks_certification = some true;
  rationale =
      some
        "If the authorised scope did not permit exercising the core flows, we did not assess the product and must not certify it.";
}

abbrev pub v1_1_0 : RubricDefinition
v1_1_0 = record {
  version = "1.1.0";
  certification = record {
    overall_threshold = 700000;
    dimension_floors =
        ("security_posture", 650000)
        ∷ ("data_privacy_practice", 600000)
        ∷ ("functional_integrity", 600000)
        ∷ [];
  };
  scoring = record {
    severity_penalties = penalties;
    confidence_multipliers = multipliers;
    rounding_decimals = 2;
  };
  bands =
      band 900000 1000000 "Exemplary"
      ∷ band 750000 899900 "Strong"
      ∷ band 600000 749900 "Adequate"
      ∷ band 400000 599900 "Weak"
      ∷ band 0 399900 "Not ready"
      ∷ [];
  gates = critical_security ∷ exposed_secret ∷ no_coverage ∷ [];
  dimensions =
      dimension "functional_integrity" 2500
        ("FI-01" ∷ "FI-02" ∷ "FI-03" ∷ "FI-04" ∷ "FI-05" ∷ "FI-06" ∷ "FI-07" ∷ "FI-08" ∷ [])
      ∷ dimension "security_posture" 2500 (
          "SEC-01" ∷ "SEC-02" ∷ "SEC-03" ∷ "SEC-04" ∷ "SEC-05" ∷ "SEC-06" ∷ "SEC-07" ∷ "SEC-08"
          ∷ "SEC-09" ∷ "SEC-10" ∷ "SEC-11" ∷ "SEC-12" ∷ "SEC-13" ∷ [])
      ∷ dimension "data_privacy_practice" 1500
          ("PRI-01" ∷ "PRI-02" ∷ "PRI-03" ∷ "PRI-04" ∷ "PRI-05" ∷ "PRI-06" ∷ "PRI-07" ∷ [])
      ∷ dimension "practicality_ux" 1500
          ("UX-01" ∷ "UX-02" ∷ "UX-03" ∷ "UX-04" ∷ "UX-05" ∷ "UX-06" ∷ "UX-07" ∷ [])
      ∷ dimension "production_readiness" 1000
          ("PRD-01" ∷ "PRD-02" ∷ "PRD-03" ∷ "PRD-04" ∷ "PRD-05" ∷ "PRD-06" ∷ [])
      ∷ dimension "store_distribution_readiness" 1000 (
          "STR-01" ∷ "STR-02" ∷ "STR-03" ∷ "STR-04" ∷ "STR-05" ∷ "STR-06" ∷ "STR-07" ∷ "STR-08"
          ∷ [])
      ∷ [];
}

-- The published rubric passes its own validator.
pub v1_1_0_checks : check_rubric v1_1_0 ≡ ok tt
unfolding check_rubric check_weights weight_total check_gates check_gate check_selectors check_known
    is_blank mathlib.Core.List.flat_map
v1_1_0_checks = refl

abbrev pub registry : Registry
registry = ("1.1.0", v1_1_0) ∷ []

pub registry_gives : (get_rubric registry [] "1.1.0").1 ≡ ok v1_1_0
unfolding get_rubric lookup_version assert_rubric_is_scorable check_rubric check_weights
    weight_total check_gates check_gate check_selectors check_known is_blank
    mathlib.Core.List.flat_map
registry_gives = refl
