-- ===== src/Rubric/Scoring/Total.antt =====
-- When packages/rubric/src/scoring.ts returns a score: never `UnscorableFindingError`, never
-- `UnbandedScoreError`.
use vibefy.Prelude.{
  ℕ, ◌+◌, ◌*◌, ◌≤◌, ◌%◌, String, Bool, some, List, [], ◌∷◌, Memᴰ, filter, ◌≡◌, refl, inl, inr,
  is_empty, Bool-cases, ok, arith,
}
use vibefy.Rubric.Types.{
  FindingSeverity, ConfidenceLevel, ScoringFinding, ScoringInput, DimensionScore, Number, finite,
  RubricGate, RubricDimension, RubricDefinition, ScoringResult,
}
use vibefy.Rubric.Fixed.{
  scale, hundred, clamp_remaining, clamp_remaining-le, round, round-le, round-last_place,
  last_place,
}
use vibefy.Rubric.Registry.{weight_of}
use vibefy.Rubric.Registry.Memo.{IsScorable}
use vibefy.Rubric.Scoring.{
  band_for, finding_penalty, penalty_from, of_dimension, score_dimension, score_dimensions,
  weighted, gate_triggers, applicable_gates, cap_at, cap_of, cap_by_gates, published,
  certification_blockers, overall_of, score_with,
}
use vibefy.Rubric.Scoring.Bounds.{score_dimensions-le}

-- The tables are complete, and each score that can come out falls in a band: the bands leave no gap
-- at the rounding that is published beside them, and the caps of the gates are such scores.
pub record IsComplete (r : RubricDefinition) : Type 0 where
  pub decimals : r.scoring.rounding_decimals ≤ 4
  pub penalties : (s : FindingSeverity) → (p : ℕ) × (r.scoring.severity_penalties s ≡ some p)
  pub multipliers : (c : ConfidenceLevel) → (m : ℕ) × (r.scoring.confidence_multipliers c ≡ some m)
  pub bands :
      (score : ℕ)
      → score ≤ 100 * scale
      → score % last_place r.scoring.rounding_decimals ≡ 0
      → (label : String) × (band_for r score ≡ ok label)
  pub caps :
      (g : RubricGate)
      → Memᴰ g r.gates
      → (cap : ℕ) → g.cap_overall_at ≡ finite cap
      → cap % last_place r.scoring.rounding_decimals ≡ 0

module _ (r : RubricDefinition) (complete : IsComplete r) where
  abbrev IsScore : ℕ → Type 0
  IsScore score = (score ≤ 100 * scale) × (score % last_place r.scoring.rounding_decimals ≡ 0)

  finding_penalty_total : (f : ScoringFinding) → (p : ℕ) × (finding_penalty r f ≡ ok p)
  unfolding finding_penalty
  finding_penalty_total f =
      let (p, e) = complete.penalties f.severity in
      let (m, e') = complete.multipliers f.confidence in (p * m, rw (e, e'))

  penalty_from_total : (t : ℕ) (fs : List ScoringFinding) → (p : ℕ) × (penalty_from r t fs ≡ ok p)
  unfolding penalty_from
  penalty_from_total t [] = (t, refl)
  penalty_from_total t (f ∷ fs) =
      let (q, e) = finding_penalty_total f in
      let (p, e') = penalty_from_total (t + q) fs in (p, rw (e, e'))

  score_dimension_total :
      (id : String) (weight : ℕ) (fs : List ScoringFinding)
      → (s : DimensionScore) × (score_dimension r id weight fs ≡ ok s)
  unfolding score_dimension
  score_dimension_total id weight fs =
      let d = r.scoring.rounding_decimals in
      let (p, e) = penalty_from_total 0 (filter (of_dimension id) fs) in
      let score = round (clamp_remaining p) d in
      let (label, e') =
        complete.bands score (round-le _ d complete.decimals (clamp_remaining-le p))
          (round-last_place _ d complete.decimals) in
      (
        record {
          dimension = id;
          score = score;
          weight = weight;
          penalty_applied = round p d;
          band = label;
        },
        rw (e, e'),
      )

  score_dimensions_total :
      (fs : List ScoringFinding) (ds : List RubricDimension)
      → (ss : List DimensionScore) × (score_dimensions r fs ds ≡ ok ss)
  unfolding score_dimensions
  score_dimensions_total fs [] = ([], refl)
  score_dimensions_total fs (d ∷ ds) =
      let (s, e) = score_dimension_total d.id (weight_of d.weight) fs in
      let (ss, e') = score_dimensions_total fs ds in (s ∷ ss, rw (e, e'))

  -- Capping by such caps leaves a score that a band holds.
  cap_by_gates-IsScore :
      (gates : List RubricGate) (fs : List ScoringFinding) (unreachable : Bool) (o : ℕ)
      → ((g : RubricGate)
          → Memᴰ g gates
          → (cap : ℕ) → g.cap_overall_at ≡ finite cap
          → cap % last_place r.scoring.rounding_decimals ≡ 0)
      → IsScore o
      → IsScore (cap_by_gates o (applicable_gates gates fs unreachable))
  unfolding cap_by_gates applicable_gates
  cap_by_gates-IsScore [] fs unreachable o caps h = h
  cap_by_gates-IsScore (g ∷ gates) fs unreachable o caps h =
      elim (Bool-cases (gate_triggers g fs unreachable)) [
        | inl fires ↦ rw fires (
            cap_by_gates-IsScore gates fs unreachable (cap_at (cap_of g.cap_overall_at) o) later
              (capped g.cap_overall_at (λ cap e. caps g (Memᴰ.head refl) cap e)))
        | inr rests ↦ rw rests (cap_by_gates-IsScore gates fs unreachable o later h)
      ]
    where
      later :
          (x : RubricGate)
          → Memᴰ x gates
          → (cap : ℕ) → x.cap_overall_at ≡ finite cap
          → cap % last_place r.scoring.rounding_decimals ≡ 0
      later x m = caps x (Memᴰ.tail m)

      capped :
          (n : Number)
          → ((cap : ℕ) → n ≡ finite cap → cap % last_place r.scoring.rounding_decimals ≡ 0)
          → IsScore (cap_at (cap_of n) o)
      capped Number.absent _ = h
      capped (finite cap) k = ground (arith, k cap refl)
      capped Number.not_finite _ = h

-- A scorable rubric with complete tables and bands scores every list of findings.
pub score_with_total :
    (r : RubricDefinition) (input : ScoringInput)
    → IsScorable r
    → IsComplete r
    → (s : ScoringResult) × (score_with r input ≡ ok s)
unfolding score_with overall_of
score_with_total r input scorable complete =
    let fs = published input.findings in
    let d = r.scoring.rounding_decimals in
    let (ds, e) = score_dimensions_total r complete fs r.dimensions in
    let gates = applicable_gates r.gates fs input.core_flows_unreachable in
    let (each, total) = score_dimensions-le r fs r.dimensions complete.decimals e in
    let within : weighted ds ≤ hundred = omega (arith, total, scorable.weights_sum) in
    let (at_most, in_place) =
      cap_by_gates-IsScore r complete r.gates fs input.core_flows_unreachable
        (round (weighted ds) d) complete.caps
        (
          round-le (weighted ds) d complete.decimals within,
          round-last_place (weighted ds) d complete.decimals,
        ) in
    let overall = overall_of r ds gates in
    let (label, e') = complete.bands overall at_most in_place in
    let blockers = certification_blockers r ds overall gates in
    (
      record {
        rubric_version = r.version;
        overall_score = overall;
        band = label;
        dimensions = ds;
        gates_applied = gates;
        certification_eligible = is_empty blockers;
        certification_blockers = blockers;
      },
      rw (e, e'),
    )
