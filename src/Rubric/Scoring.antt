-- ===== src/Rubric/Scoring.antt =====
-- packages/rubric/src/scoring.ts. What it throws is an error of the result; a sentence of the
-- certification decision is a `Blocker` with the values that it quotes.
pub mod Bounds
pub mod Certification
pub mod Monotone
pub mod Total
mod Tests
use vibefy.Prelude.{
  ℕ, ◌+◌, ◌*◌, ◌≤◌, min, String, Bool, true, false, ◌&&◌, ◌||◌, not, Option, none, some, List, [],
  ◌∷◌, ◌++◌, map, ◌==◌, text_eq, includes, any, filter, find?, leb, ltb, is_empty, if◌then◌else◌,
  Result, ok, err, ◌>>=◌, ◌>>◌,
}
use vibefy.Rubric.Types.{
  FindingSeverity, ConfidenceLevel, severity_name, ScoringFinding, ScoringInput, DimensionScore,
  AppliedGate, Number, absent, finite, not_finite, RubricBand, RubricGate, RubricDimension,
  RubricDefinition, Blocker, gate_blocks, below_threshold, below_floor, ScoringResult, RubricError,
  unscorable_severity, unscorable_confidence, unbanded,
}
use vibefy.Rubric.Fixed.{scale, clamp_remaining, round}
use vibefy.Rubric.Registry.{weight_of, is_run_fact, Registry, get_rubric}

-- The first band that holds the score.
pub band_for : RubricDefinition → ℕ → Result RubricError String
band_for r score = elim (find? (λ (b : RubricBand). leb b.min score && leb score b.max) r.bands) [
  | none ↦ err (unbanded r.version score)
  | some b ↦ ok b.label
]

abbrev severity_or_throw : RubricDefinition → FindingSeverity → Option ℕ → Result RubricError ℕ
severity_or_throw r s none = err (unscorable_severity r.version s)
severity_or_throw r s (some n) = ok n

abbrev confidence_or_throw : RubricDefinition → ConfidenceLevel → Option ℕ → Result RubricError ℕ
confidence_or_throw r c none = err (unscorable_confidence r.version c)
confidence_or_throw r c (some n) = ok n

pub finding_penalty : RubricDefinition → ScoringFinding → Result RubricError ℕ
finding_penalty r f = do
  severity ← severity_or_throw r f.severity (r.scoring.severity_penalties f.severity)
  confidence ← confidence_or_throw r f.confidence (r.scoring.confidence_multipliers f.confidence)
  ok (severity * confidence)

-- The `reduce` of `scoreDimension`, from a total.
pub penalty_from : RubricDefinition → ℕ → List ScoringFinding → Result RubricError ℕ
penalty_from r total [] = ok total
penalty_from r total (f ∷ fs) = do p ← finding_penalty r f; penalty_from r (total + p) fs

abbrev pub of_dimension : String → ScoringFinding → Bool
of_dimension id f = f.dimension == id

pub score_dimension :
    RubricDefinition → String → ℕ → List ScoringFinding → Result RubricError DimensionScore
score_dimension r id weight findings = do
  penalty ← penalty_from r 0 (filter (of_dimension id) findings)
  let score = round (clamp_remaining penalty) r.scoring.rounding_decimals
  band ← band_for r score
  ok (record {
    dimension = id;
    score = score;
    weight = weight;
    penalty_applied = round penalty r.scoring.rounding_decimals;
    band = band;
  })

pub score_dimensions :
    RubricDefinition
    → List ScoringFinding
    → List RubricDimension
    → Result RubricError (List DimensionScore)
score_dimensions r findings [] = ok []
score_dimensions r findings (d ∷ ds) = do
  s ← score_dimension r d.id (weight_of d.weight) findings
  rest ← score_dimensions r findings ds
  ok (s ∷ rest)

pub weighted : List DimensionScore → ℕ
weighted [] = 0
weighted (d ∷ ds) = d.score * d.weight + weighted ds

-- An empty string is falsy, so it selects no severity in particular.
abbrev severity_passes : Option String → FindingSeverity → Bool
severity_passes none s = true
severity_passes (some t) s = if t == "" then true else severity_name s == t

-- `if (selector && !selector.includes(x)) return false`: an absent selector lets everything pass.
abbrev passes : Option (List String) → String → Bool
passes none x = true
passes (some xs) x = includes xs x

abbrev is_there : Option (List String) → Bool
is_there none = false
is_there (some xs) = true

-- The test of `findings.some(…)`. An empty array is a selector that is there.
pub gate_matches : RubricGate → ScoringFinding → Bool
gate_matches g f =
    severity_passes g.trigger_severity f.severity
    && (passes g.applies_to_rules f.rule_id
        && (passes g.applies_to_dimensions f.dimension
            && (is_there g.applies_to_rules || is_there g.applies_to_dimensions)))

pub gate_triggers : RubricGate → List ScoringFinding → Bool → Bool
gate_triggers g findings core_flows_unreachable =
    if is_run_fact g.id then core_flows_unreachable else any (gate_matches g) findings

-- What a string field is once the validator has seen it.
abbrev text_of : Option String → String
text_of none = "undefined"
text_of (some s) = s

-- A value that is no boolean is falsy where the code tests it.
abbrev truthy : Option Bool → Bool
truthy none = false
truthy (some b) = b

-- `gate.capOverallAt ?? null`; the validator has refused a cap that is no number.
abbrev cap_of : Number → Option ℕ
cap_of (finite n) = some n
cap_of _ = none

abbrev pub applied : RubricGate → AppliedGate
applied g = record {
  id = text_of g.id;
  label = text_of g.label;
  cap_overall_at = cap_of g.cap_overall_at;
  blocks_certification = truthy g.blocks_certification;
}

-- The loop of `applicableGates`.
pub applicable_gates : List RubricGate → List ScoringFinding → Bool → List AppliedGate
applicable_gates [] findings unreachable = []
applicable_gates (g ∷ gs) findings unreachable =
    let rest = applicable_gates gs findings unreachable in
    if gate_triggers g findings unreachable then applied g ∷ rest else rest

abbrev cap_at : Option ℕ → ℕ → ℕ
cap_at none overall = overall
cap_at (some cap) overall = min overall cap

-- `for (const gate of gatesApplied) if (gate.capOverallAt !== null) overall = Math.min(…)`.
pub cap_by_gates : ℕ → List AppliedGate → ℕ
cap_by_gates overall [] = overall
cap_by_gates overall (g ∷ gs) = cap_by_gates (cap_at g.cap_overall_at overall) gs

pub gate_blockers : List AppliedGate → List Blocker
gate_blockers [] = []
gate_blockers (g ∷ gs) =
    let rest = gate_blockers gs in
    if g.blocks_certification then gate_blocks g.id g.label ∷ rest else rest

abbrev pub dimension_is : String → DimensionScore → Bool
dimension_is id d = d.dimension == id

-- A floor on a dimension that was not scored blocks nothing.
abbrev floor_blocker : String → ℕ → Option DimensionScore → List Blocker
floor_blocker id floor none = []
floor_blocker id floor (some d) =
    if ltb d.score floor then below_floor id d.score floor ∷ [] else []

pub floor_blockers : List (String × ℕ) → List DimensionScore → List Blocker
floor_blockers [] dimensions = []
floor_blockers ((id, floor) ∷ floors) dimensions =
    floor_blocker id floor (find? (dimension_is id) dimensions) ++ floor_blockers floors dimensions

pub certification_blockers :
    RubricDefinition → List DimensionScore → ℕ → List AppliedGate → List Blocker
certification_blockers r dimensions overall gates =
    let threshold = r.certification.overall_threshold in
    gate_blockers gates
    ++ ((if ltb overall threshold then below_threshold overall threshold ∷ [] else [])
        ++ floor_blockers r.certification.dimension_floors dimensions)

abbrev pub published : List ScoringFinding → List ScoringFinding
published findings = filter (λ (f : ScoringFinding). f.is_published) findings

-- The overall score of scored dimensions: the weighted sum, rounded, then capped by the gates.
pub overall_of : RubricDefinition → List DimensionScore → List AppliedGate → ℕ
overall_of r dimensions gates =
    cap_by_gates (round (weighted dimensions) r.scoring.rounding_decimals) gates

-- `scoreAssessment` after `getRubric`.
pub score_with : RubricDefinition → ScoringInput → Result RubricError ScoringResult
score_with r input = do
  let findings = published input.findings
  dimensions ← score_dimensions r findings r.dimensions
  let gates = applicable_gates r.gates findings input.core_flows_unreachable
  let overall = overall_of r dimensions gates
  let blockers = certification_blockers r dimensions overall gates
  band ← band_for r overall
  ok (record {
    rubric_version = r.version;
    overall_score = overall;
    band = band;
    dimensions = dimensions;
    gates_applied = gates;
    certification_eligible = is_empty blockers;
    certification_blockers = blockers;
  })

pub score_assessment :
    Registry → List String → ScoringInput → List String × Result RubricError ScoringResult
score_assessment registry validated input =
    let (validated', found) = get_rubric registry validated input.rubric_version in
    (validated', found >>= λ r. score_with r input)
