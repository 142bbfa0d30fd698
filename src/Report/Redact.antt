-- ===== src/Report/Redact.antt =====
-- packages/report/src/redact.ts: what each tier sees of a report. `localeCompare` is a parameter, and so
-- is the type of what a report says beside its score, its band, its dimensions and its findings, which
-- this file hands on as it is.
pub mod Tiers
mod Tests
use vibefy.Prelude.{
  ℕ, ◌-◌, String, Bool, true, false, List, [], ◌∷◌, map, length, take, ltb, if◌then◌else◌,
}
use vibefy.Prelude.Sort.{sort}
use vibefy.Prelude.Comparing.{Sign, or_then, minus, is_before}
use vibefy.Rubric.Types.{FindingSeverity, ConfidenceLevel}

pub record Evidence : Type 0 where
  pub id : String
  pub kind : String
  pub summary : String
  pub sha256 : String
  pub captured_at : String

pub record ReportFinding : Type 0 where
  pub id : String
  pub rule_id : String
  pub dimension : String
  pub severity : FindingSeverity
  pub confidence : ConfidenceLevel
  pub title : String
  pub description : String
  pub remediation : String
  pub evidence : List Evidence

pub record ReportSource (Rest : Type 0) : Type 0 where
  pub overall_score : ℕ
  pub band : String
  pub certification_eligible : Bool
  pub dimensions : List (String × ℕ)
  pub intended_for_app_store : Bool
  pub rest : Rest
  pub findings : List ReportFinding

-- `Omit<ReportSource, 'findings'>`.
pub record Metadata (Rest : Type 0) : Type 0 where
  pub overall_score : ℕ
  pub band : String
  pub certification_eligible : Bool
  pub dimensions : List (String × ℕ)
  pub intended_for_app_store : Bool
  pub rest : Rest

pub data ReportTier : Type 0 where
  free paid : ReportTier

-- The sentences on what a free report withholds.
pub data Withheld : Type 0 where
  further_findings : ℕ → Withheld
  every_finding_in_full evidence_behind_each remediation_steps store_checklist : Withheld
  improvement_suggestions pdf_export free_re_test : Withheld

pub record RedactedReport (Rest : Type 0) : Type 0 where
  pub source : Metadata Rest
  pub findings : List ReportFinding
  pub show_evidence : Bool
  pub show_remediation : Bool
  pub show_prioritised_plan : Bool
  pub hidden_finding_count : ℕ
  pub withheld : List Withheld

-- The place in `SEVERITY_ORDER`.
abbrev pub severity_rank : FindingSeverity → ℕ
severity_rank FindingSeverity.critical = 0
severity_rank FindingSeverity.high = 1
severity_rank FindingSeverity.medium = 2
severity_rank FindingSeverity.low = 3
severity_rank FindingSeverity.info = 4

abbrev pub free_tier_finding_limit : ℕ
free_tier_finding_limit = 3

abbrev pub free_tier_finding : ReportFinding → ReportFinding
free_tier_finding f = record f { remediation = ""; evidence = [] }

abbrev pub metadata_of : {Rest : Type 0} → ReportSource Rest → Metadata Rest
metadata_of s = record {
  overall_score = s.overall_score;
  band = s.band;
  certification_eligible = s.certification_eligible;
  dimensions = s.dimensions;
  intended_for_app_store = s.intended_for_app_store;
  rest = s.rest;
}

abbrev withheld_from : Bool → ℕ → List Withheld
withheld_from for_store hidden =
    (if ltb 0 hidden then further_findings hidden else every_finding_in_full)
    ∷ evidence_behind_each
    ∷ remediation_steps
    ∷ (if for_store then store_checklist else improvement_suggestions)
    ∷ pdf_export
    ∷ free_re_test
    ∷ []

module _ (locale_compare : String → String → Sign) where
  abbrev pub compare_findings : ReportFinding → ReportFinding → Sign
  compare_findings a b =
      or_then (minus (severity_rank a.severity) (severity_rank b.severity))
        (or_then (locale_compare a.rule_id b.rule_id) (locale_compare a.title b.title))

  abbrev pub comes_before : ReportFinding → ReportFinding → Bool
  comes_before a b = is_before (compare_findings a b)

  abbrev pub sort_findings : List ReportFinding → List ReportFinding
  sort_findings findings = sort comes_before findings

  unfoldable pub redact_for_tier :
      {Rest : Type 0} → ReportSource Rest → ReportTier → RedactedReport Rest
  redact_for_tier source paid = record {
    source = metadata_of source;
    findings = sort_findings source.findings;
    show_evidence = true;
    show_remediation = true;
    show_prioritised_plan = true;
    hidden_finding_count = 0;
    withheld = [];
  }
  redact_for_tier source free =
      let sorted = sort_findings source.findings in
      let shown = take free_tier_finding_limit sorted in
      let hidden = length sorted - length shown in
      record {
        source = metadata_of source;
        findings = map free_tier_finding shown;
        show_evidence = false;
        show_remediation = false;
        show_prioritised_plan = false;
        hidden_finding_count = hidden;
        withheld = withheld_from source.intended_for_app_store hidden;
      }

-- What `scoreFingerprint` writes, by its parts.
abbrev pub score_fingerprint :
    {Rest : Type 0} → Metadata Rest → ℕ × String × Bool × List (String × ℕ)
score_fingerprint m = (m.overall_score, m.band, m.certification_eligible, m.dimensions)
