-- ===== src/Rubric/Types.antt =====
-- packages/rubric/src/types.ts, and the interfaces of packages/rubric/src/rubric.ts.
-- A string-literal union that the code compares with strings of the published data is a `String`;
-- severities and confidences, which index the scoring tables, are enumerations with their names.
-- The JSON reaches the code through `as unknown as RubricDefinition`, so what the validator asks of
-- a field (is it there, is it a boolean, is it a number) is a case of the field's type here.
-- Published numbers are fixed-point, see Rubric/Fixed.antt.
use vibefy.Prelude.{ℕ, String, Bool, Option, List}

pub data FindingSeverity : Type 0 where
  critical high medium low info : FindingSeverity

pub data ConfidenceLevel : Type 0 where
  high medium low : ConfidenceLevel

-- The string that a severity is at run time.
abbrev pub severity_name : FindingSeverity → String
severity_name FindingSeverity.critical = "critical"
severity_name FindingSeverity.high = "high"
severity_name FindingSeverity.medium = "medium"
severity_name FindingSeverity.low = "low"
severity_name FindingSeverity.info = "info"

pub record ScoringFinding : Type 0 where
  pub rule_id : String
  pub dimension : String
  pub severity : FindingSeverity
  pub confidence : ConfidenceLevel
  pub is_published : Bool

pub record ScoringInput : Type 0 where
  pub rubric_version : String
  pub findings : List ScoringFinding
  pub core_flows_unreachable : Bool

pub record DimensionScore : Type 0 where
  pub dimension : String
  pub score : ℕ
  pub weight : ℕ
  pub penalty_applied : ℕ
  pub band : String

pub record AppliedGate : Type 0 where
  pub id : String
  pub label : String
  pub cap_overall_at : Option ℕ
  pub blocks_certification : Bool

-- A JSON number, or what stands where one was expected.
pub data Number : Type 0 where
  absent : Number
  finite : ℕ → Number
  not_finite : Number

pub record RubricBand : Type 0 where
  pub min : ℕ
  pub max : ℕ
  pub label : String

-- `none` in `id`, `label`, `rationale` is a value that is no string; in `blocks_certification`, one
-- that is no boolean; in the three selectors, a key that is not there.
pub record RubricGate : Type 0 where
  pub id : Option String
  pub label : Option String
  pub applies_to_dimensions : Option (List String)
  pub applies_to_rules : Option (List String)
  pub trigger_severity : Option String
  pub cap_overall_at : Number
  pub blocks_certification : Option Bool
  pub rationale : Option String

pub record RubricDimension : Type 0 where
  pub id : String
  pub weight : Number
  pub criteria : List String

pub record Certification : Type 0 where
  pub overall_threshold : ℕ
  pub dimension_floors : List (String × ℕ)

pub record Scoring : Type 0 where
  pub severity_penalties : FindingSeverity → Option ℕ
  pub confidence_multipliers : ConfidenceLevel → Option ℕ
  pub rounding_decimals : ℕ

pub record RubricDefinition : Type 0 where
  pub version : String
  pub certification : Certification
  pub scoring : Scoring
  pub bands : List RubricBand
  pub gates : List RubricGate
  pub dimensions : List RubricDimension

-- What the certification decision says, with the values that its sentence quotes.
pub data Blocker : Type 0 where
  gate_blocks : String → String → Blocker
  below_threshold : ℕ → ℕ → Blocker
  below_floor : String → ℕ → ℕ → Blocker

pub record ScoringResult : Type 0 where
  pub rubric_version : String
  pub overall_score : ℕ
  pub band : String
  pub dimensions : List DimensionScore
  pub gates_applied : List AppliedGate
  pub certification_eligible : Bool
  pub certification_blockers : List Blocker

-- The exceptions of rubric.ts and scoring.ts. The malformed ones name what is wrong.
pub data Malformed : Type 0 where
  no_dimensions : Malformed
  bad_weight : String → Malformed
  weights_do_not_sum : ℕ → Malformed
  no_gate_id : Malformed
  blocks_not_boolean : String → Malformed
  no_label : String → Malformed
  no_rationale : String → Malformed
  cap_not_a_number : String → Malformed
  selects_nothing : String → Malformed
  unknown_rule : String → String → Malformed
  unknown_dimension : String → String → Malformed

pub data RubricError : Type 0 where
  unknown_version : String → RubricError
  malformed : String → Malformed → RubricError
  unscorable_severity : String → FindingSeverity → RubricError
  unscorable_confidence : String → ConfidenceLevel → RubricError
  unbanded : String → ℕ → RubricError
