-- ===== src/Governance/Triage.antt =====
-- packages/governance/src/triage.ts: what a reviewer is shown of an assessment before deciding on it.
-- A score is a double (Prelude/Double). A sentence is a constructor with the values that it quotes.
pub mod Straightforward
mod Tests
use vibefy.Prelude.{
  ℕ, ◌+◌, ◌*◌, ◌/◌, ◌≤◌, ◌<◌, String, Bool, true, false, not, ◌&&◌, ◌||◌, Option, none, some, List,
  [], ◌∷◌, ◌++◌, map, filter, is_empty, length, take, max, leb, ltb, nat_beq, if◌then◌else◌, ◌==◌,
  text_eq,
}
use vibefy.Prelude.Double.{one, distance}

pub data Severity : Type 0 where
  critical high medium low info : Severity

pub data Confidence : Type 0 where
  high medium low : Confidence

pub record TriageFinding : Type 0 where
  pub title : String
  pub severity : Severity
  pub dimension : String
  pub confidence : Confidence
  pub is_published : Bool
  pub evidence_count : ℕ

pub record TriageInput : Type 0 where
  pub overall_score : Option ℕ
  pub certification_eligible : Bool
  pub gate_failures : List String
  pub findings : List TriageFinding
  pub failed_stages : Option (List String)
  pub not_tested_count : Option ℕ
  pub criteria_count : Option ℕ
  pub previous_score : Option ℕ

pub data Attention : Type 0 where
  published_without_evidence suspiciously_few_findings low_confidence : ℕ → Attention
  certifying_with_high_severity near_threshold : ℕ → Attention
  incomplete_run : List String → Attention
  critical_finding : ℕ → List String → Bool → Attention
  large_move : ℕ → ℕ → Attention

pub data Routine : Type 0 where
  all_carry_evidence : ℕ → Routine
  no_critical_findings no_low_confidence every_stage_completed : Routine
  criteria_untested : ℕ → ℕ → Routine
  gate_already_blocks : List String → Routine

pub data Headline : Type 0 where
  no_published_findings : Headline
  findings_with : ℕ → List (Severity × ℕ) → Option ℕ → Headline

pub data Suggestion : Type 0 where
  read_closely straightforward : Suggestion

pub record Triage : Type 0 where
  pub headline : Headline
  pub attention : List Attention
  pub routine : List Routine
  pub suggestion : Suggestion
  pub estimated_minutes : ℕ

abbrev pub certification_threshold : ℕ
certification_threshold = 70 * one

abbrev pub near_threshold_points : ℕ
near_threshold_points = 4 * one

abbrev pub large_move_points : ℕ
large_move_points = 8 * one

abbrev pub rank : Severity → ℕ
rank critical = 0
rank Severity.high = 1
rank Severity.medium = 2
rank Severity.low = 3
rank info = 4

abbrev pub has_severity : Severity → TriageFinding → Bool
has_severity s f = nat_beq (rank f.severity) (rank s)

abbrev pub lacks_evidence : TriageFinding → Bool
lacks_evidence f = nat_beq f.evidence_count 0

abbrev pub is_low : Confidence → Bool
is_low Confidence.low = true
is_low _ = false

abbrev pub is_doubtful : TriageFinding → Bool
is_doubtful f = is_low f.confidence

abbrev pub is_serious : TriageFinding → Bool
is_serious f =
    (has_severity Severity.high f || has_severity critical f)
    && ((f.dimension == "security_posture") || (f.dimension == "data_privacy_practice"))

abbrev pub raise_if : Bool → Attention → List Attention
raise_if true a = a ∷ []
raise_if false a = []

abbrev pub note_if : Bool → Routine → List Routine
note_if true r = r ∷ []
note_if false r = []

abbrev pub or_none {ℓ} : {A : Type ℓ} → Option (List A) → List A
or_none none = []
or_none (some xs) = xs

abbrev pub is_near : ℕ → Bool
is_near score = leb (distance score certification_threshold) near_threshold_points

abbrev pub near : Option ℕ → List Attention
near none = []
near (some score) = raise_if (is_near score) (near_threshold score)

abbrev pub has_moved : ℕ → ℕ → Bool
has_moved score previous = leb large_move_points (distance score previous)

abbrev pub moved : Option ℕ → Option ℕ → List Attention
moved (some score) (some previous) = raise_if (has_moved score previous) (large_move previous score)
moved _ _ = []

abbrev pub is_some {ℓ} : {A : Type ℓ} → List A → Bool
is_some xs = not (is_empty xs)

abbrev pub published_of : TriageInput → List TriageFinding
published_of input = filter (λ (f : TriageFinding). f.is_published) input.findings

-- What is raised, in the order of the code.
unfoldable pub attention_of : TriageInput → List Attention
attention_of input =
    let published = published_of input in
    let unevidenced = filter lacks_evidence published in
    let failed = or_none input.failed_stages in
    let criticals = filter (has_severity critical) published in
    let doubtful = filter is_doubtful published in
    let serious = filter is_serious published in
    raise_if (is_some unevidenced) (published_without_evidence (length unevidenced))
    ++ (raise_if (is_some failed) (incomplete_run failed)
        ++ (raise_if (ltb (length published) 3) (suspiciously_few_findings (length published))
            ++ (raise_if (is_some criticals) (
                  critical_finding (length criticals)
                    (map (λ (f : TriageFinding). f.title) (take 3 criticals))
                    (ltb 3 (length criticals)))
                ++ (raise_if (is_some doubtful) (low_confidence (length doubtful))
                    ++ (raise_if (input.certification_eligible && is_some serious)
                          (certifying_with_high_severity (length serious))
                        ++ (near input.overall_score
                            ++ moved input.overall_score input.previous_score))))))

abbrev untested : Option ℕ → Option ℕ → List Routine
untested (some n) (some of_all) = criteria_untested n of_all ∷ []
untested _ _ = []

unfoldable pub routine_of : TriageInput → List Routine
routine_of input =
    let published = published_of input in
    note_if (is_empty (filter lacks_evidence published) && is_some published)
      (all_carry_evidence (length published))
    ++ (note_if (is_empty (filter (has_severity critical) published) && is_some published)
          no_critical_findings
        ++ (note_if (is_empty (filter is_doubtful published) && is_some published) no_low_confidence
            ++ (note_if (is_empty (or_none input.failed_stages)) every_stage_completed
                ++ (untested input.not_tested_count input.criteria_count
                    ++ note_if (is_some input.gate_failures)
                        (gate_already_blocks input.gate_failures)))))

abbrev count_of : List TriageFinding → Severity → List (Severity × ℕ)
count_of published s =
    let n = length (filter (has_severity s) published) in if ltb 0 n then (s, n) ∷ [] else []

abbrev headline_of : TriageInput → Headline
headline_of input =
    let published = published_of input in
    if is_empty published
    then no_published_findings
    else findings_with (length published)
        (count_of published critical
          ++ (count_of published Severity.high
              ++ (count_of published Severity.medium ++ count_of published Severity.low)))
        input.overall_score

-- `Math.max(1, Math.round(1 + attention + published / 6))`.
abbrev minutes : ℕ → ℕ → ℕ
minutes raised published = max 1 (1 + raised + (published + 3) / 6)

unfoldable pub triage_assessment : TriageInput → Triage
triage_assessment input =
    let attention = attention_of input in
    record {
      headline = headline_of input;
      attention = attention;
      routine = routine_of input;
      suggestion = (if ltb 0 (length attention) then read_closely else straightforward);
      estimated_minutes = minutes (length attention) (length (published_of input));
    }
