-- ===== src/Governance/Triage/Tests.antt =====
-- A triage at concrete values (packages/governance/src/triage.ts).
use vibefy.Prelude.{true, none, some, [], ◌∷◌, ◌≡◌, ◌↔◌, refl}
use vibefy.Prelude.Double.{one, rounded, spacing, distance, hundredths}
use vibefy.Governance.Triage.{
  Severity, Confidence, TriageFinding, TriageInput, Suggestion, attention_of, triage_assessment,
}
use vibefy.Governance.Triage.Straightforward.{IsOrdinary, straightforward_iff}

abbrev finding : Severity → TriageFinding
finding severity = record {
  title = "A page answers without its headers";
  severity = severity;
  dimension = "security_posture";
  confidence = Confidence.medium;
  is_published = true;
  evidence_count = 2;
}

abbrev input : TriageInput
input = record {
  overall_score = some (hundredths 8250);
  certification_eligible = true;
  gate_failures = [];
  findings = finding Severity.medium ∷ finding Severity.low ∷ finding Severity.info ∷ [];
  failed_stages = none;
  not_tested_count = some 3;
  criteria_count = some 60;
  previous_score = some (hundredths 8000);
}

nothing_to_raise : (triage_assessment input).suggestion ≡ Suggestion.straightforward
unfolding triage_assessment attention_of distance one rounded spacing hundredths
nothing_to_raise = refl

nothing_found :
    (triage_assessment (record input { findings = [] })).suggestion ≡ Suggestion.read_closely
unfolding triage_assessment attention_of distance one rounded spacing hundredths
nothing_found = refl

-- From 57.6 to 65.6 the language computes a little less than eight points, and nothing is raised.
eight_points_on_paper :
    (triage_assessment (record input {
      overall_score = some (hundredths 6560);
      previous_score = some (hundredths 5760);
    })).suggestion
    ≡ Suggestion.straightforward
unfolding triage_assessment attention_of distance one rounded spacing hundredths
eight_points_on_paper = refl

straightforward_iff_example :
    ((triage_assessment input).suggestion ≡ Suggestion.straightforward) ↔ IsOrdinary input
straightforward_iff_example = straightforward_iff input
