-- ===== src/Report/Redact/Tests.antt =====
-- A report at each tier (packages/report/src/redact.ts).
use vibefy.Prelude.{ℕ, ◌+◌, ◌≤◌, String, true, false, [], ◌∷◌, map, length, ◌≡◌, ◌⊎◌, refl, Memᴰ}
use vibefy.Prelude.Sort.{sort, insert_sorted}
use vibefy.Prelude.Comparing.{Sign, same}
use vibefy.Rubric.Types.{FindingSeverity, ConfidenceLevel}
use vibefy.Report.Redact.{
  ReportFinding, ReportSource, free, paid, severity_rank, free_tier_finding, redact_for_tier,
  score_fingerprint,
}
use vibefy.Report.Redact.Tiers.{
  paid_changed, free_report_shows_the_worst, free_report_ignores_the_paid,
}

abbrev compare : String → String → Sign
compare s t = same

abbrev finding : FindingSeverity → ReportFinding
finding severity = record {
  id = "f";
  rule_id = "headers.missing";
  dimension = "security_posture";
  severity = severity;
  confidence = ConfidenceLevel.high;
  title = "A page answers without its headers";
  description = "Every answer lacks a content policy";
  remediation = "Send the header";
  evidence =
      record {
        id = "e";
        kind = "http";
        summary = "The answer";
        sha256 = "ab";
        captured_at = "2026-03-01";
      }
      ∷ [];
}

abbrev source : ReportSource ℕ
source = record {
  overall_score = 825;
  band = "solid";
  certification_eligible = true;
  dimensions = ("security_posture", 800) ∷ [];
  intended_for_app_store = false;
  rest = 0;
  findings =
      finding FindingSeverity.low
      ∷ finding FindingSeverity.medium
      ∷ finding FindingSeverity.high
      ∷ finding FindingSeverity.info
      ∷ [];
}

one_is_hidden : (redact_for_tier compare source free).hidden_finding_count ≡ 1
unfolding redact_for_tier sort insert_sorted
one_is_hidden = refl

free_report_shows_the_worst_example :
    let report = redact_for_tier compare source free in
    (length report.findings ≤ 3)
    × (length report.findings + report.hidden_finding_count
        ≡ length (redact_for_tier compare source paid).findings)
    × ((g : ReportFinding)
        → Memᴰ g source.findings
        → Memᴰ (free_tier_finding g) report.findings
          ⊎ ((f : ReportFinding)
              → Memᴰ f report.findings
              → severity_rank f.severity ≤ severity_rank g.severity))
    × (score_fingerprint report.source
        ≡ score_fingerprint (redact_for_tier compare source paid).source)
free_report_shows_the_worst_example = free_report_shows_the_worst compare source

free_report_ignores_the_paid_example :
    redact_for_tier compare
      (record source { findings = map (paid_changed (λ f. "Ask us") (λ f. [])) source.findings })
      free
    ≡ redact_for_tier compare source free
free_report_ignores_the_paid_example =
    free_report_ignores_the_paid compare source (λ f. "Ask us") (λ f. [])
