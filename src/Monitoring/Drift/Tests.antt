-- ===== src/Monitoring/Drift/Tests.antt =====
-- Two assessments compared (packages/monitoring/src/drift.ts).
use vibefy.Prelude.{text_eq, String, true, false, [], ◌∷◌, Memᴰ, ◌↔◌}
use vibefy.Monitoring.Types.{
  MonitoredSeverity, FindingChange, ComparableFinding, AssessmentSnapshot,
}
use vibefy.Monitoring.Drift.{text_before, drift_of}
use vibefy.Monitoring.Drift.Partition.{IsPublished, Describes, HasKey, drift_partition}

abbrev exposed : ComparableFinding
exposed = record {
  rule_id = "SEC-01";
  dimension = "security_posture";
  severity = MonitoredSeverity.high;
  title = "A key in the bundle";
  is_published = true;
}

abbrev unlabelled : ComparableFinding
unlabelled = record {
  rule_id = "UX-03";
  dimension = "practicality_ux";
  severity = MonitoredSeverity.low;
  title = "A field without a label";
  is_published = true;
}

abbrev unconfirmed : ComparableFinding
unconfirmed = record exposed { rule_id = "SEC-07"; is_published = false }

abbrev pub first_run : AssessmentSnapshot
first_run = record {
  assessment_id = "a1";
  assessed_at = 1000;
  rubric_version = "1.1.0";
  overall_score = 823400;
  certification_eligible = true;
  dimensions = ("security_posture", 780000) ∷ ("practicality_ux", 900000) ∷ [];
  findings = unlabelled ∷ unconfirmed ∷ [];
  not_tested_count = 2;
}

-- A serious finding more, and a score 12 points lower.
abbrev pub second_run : AssessmentSnapshot
second_run = record first_run {
  assessment_id = "a2";
  assessed_at = 2000;
  overall_score = 703400;
  dimensions = ("security_posture", 560000) ∷ ("practicality_ux", 900000) ∷ [];
  findings = exposed ∷ unlabelled ∷ record exposed { severity = MonitoredSeverity.medium } ∷ [];
}

drift_partition_example :
    let d = drift_of text_before first_run second_run in
    (((k : String)
        → HasKey k d.new_findings ↔ (IsPublished k second_run × (IsPublished k first_run → ⊥)))
      × ((c : FindingChange) → Memᴰ c d.new_findings → Describes c second_run))
    × (((k : String)
          → HasKey k d.persisting_findings ↔ (IsPublished k second_run × IsPublished k first_run))
        × ((c : FindingChange) → Memᴰ c d.persisting_findings → Describes c second_run))
    × (((k : String)
          → HasKey k d.resolved_findings
            ↔ (IsPublished k first_run × (IsPublished k second_run → ⊥)))
        × ((c : FindingChange) → Memᴰ c d.resolved_findings → Describes c first_run))
drift_partition_example = drift_partition text_before first_run second_run
