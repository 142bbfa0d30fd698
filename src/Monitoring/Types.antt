-- ===== src/Monitoring/Types.antt =====
-- packages/monitoring/src/types.ts. Scores are fixed-point numbers in units of 1 / 10000, and a
-- difference of two scores is an integer in the same unit. Dimensions are their names.
use vibefy.Prelude.{ℕ, String, Bool, List, ◌≡◌, Eq, enum_eq, arith}
use vibefy.Prelude.Int.{ℤ}

pub data MonitoredSeverity : Type 0 where
  critical high medium low info : MonitoredSeverity

-- `SEVERITY_RANK` of drift.ts.
abbrev pub severity_rank : MonitoredSeverity → ℕ
severity_rank MonitoredSeverity.info = 0
severity_rank MonitoredSeverity.low = 1
severity_rank MonitoredSeverity.medium = 2
severity_rank MonitoredSeverity.high = 3
severity_rank MonitoredSeverity.critical = 4

pub severity_rank_injective : (a b : MonitoredSeverity) → severity_rank a ≡ severity_rank b → a ≡ b
severity_rank_injective a b h = ground arith

instance abbrev pub severity_eq : Eq MonitoredSeverity
severity_eq = enum_eq severity_rank severity_rank_injective

pub record ComparableFinding : Type 0 where
  pub rule_id : String
  pub dimension : String
  pub severity : MonitoredSeverity
  pub title : String
  pub is_published : Bool

pub record AssessmentSnapshot : Type 0 where
  pub assessment_id : String
  pub assessed_at : ℕ
  pub rubric_version : String
  pub overall_score : ℕ
  pub certification_eligible : Bool
  pub dimensions : List (String × ℕ)
  pub findings : List ComparableFinding
  pub not_tested_count : ℕ

pub record DimensionDelta : Type 0 where
  pub dimension : String
  pub before : ℕ
  pub after : ℕ
  pub delta : ℤ

pub record FindingChange : Type 0 where
  pub key : String
  pub rule_id : String
  pub dimension : String
  pub severity : MonitoredSeverity
  pub title : String

-- A finding that was there and has become more serious.
pub record Escalation : Type 0 where
  pub change : FindingChange
  pub was_severity : MonitoredSeverity

pub record Drift : Type 0 where
  pub previous_assessment_id : String
  pub assessment_id : String
  pub score_before : ℕ
  pub score_after : ℕ
  pub score_delta : ℤ
  pub dimension_deltas : List DimensionDelta
  pub new_findings : List FindingChange
  pub resolved_findings : List FindingChange
  pub persisting_findings : List FindingChange
  pub escalated_findings : List Escalation
  pub certification_before : Bool
  pub certification_after : Bool
  pub certification_lost : Bool
  pub rubric_version_changed : Bool
  pub comparable : Bool
  pub not_tested_before : ℕ
  pub not_tested_after : ℕ
  pub coverage_shrank : Bool
