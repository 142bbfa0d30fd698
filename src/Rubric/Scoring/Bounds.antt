-- ===== src/Rubric/Scoring/Bounds.antt =====
-- What a score of packages/rubric/src/scoring.ts lies between.
use native.Mathlib.Nat.{mul-le-mul_right}
use vibefy.Prelude.{
  ℕ, ◌*◌, ◌≤◌, String, List, [], ◌∷◌, Memᴰ, mem_cons_elim, filter, ◌≡◌, number_eq, ok, >>=-eq-ok,
  is_empty, arith,
}
use vibefy.Rubric.Types.{
  ScoringFinding, ScoringInput, DimensionScore, AppliedGate, RubricDimension, RubricDefinition,
  ScoringResult,
}
use vibefy.Rubric.Fixed.{scale, hundred, clamp_remaining-le, round, round-le, clamp_remaining}
use vibefy.Rubric.Registry.Memo.{IsScorable}
use vibefy.Rubric.Registry.{weight_of, weight_total}
use vibefy.Rubric.Scoring.{
  band_for, penalty_from, of_dimension, score_dimension, score_dimensions, weighted, published,
  cap_at, cap_by_gates, applicable_gates, overall_of, certification_blockers, score_with,
}

-- What a successful score is made of.
pub record Scored (r : RubricDefinition) (input : ScoringInput) (s : ScoringResult) : Type 0 where
  pub scored : score_dimensions r (published input.findings) r.dimensions ≡ ok s.dimensions
  pub gates :
      s.gates_applied
      ≡ applicable_gates r.gates (published input.findings) input.core_flows_unreachable
  pub overall : s.overall_score ≡ overall_of r s.dimensions s.gates_applied
  pub blockers :
      s.certification_blockers
      ≡ certification_blockers r s.dimensions s.overall_score s.gates_applied
  pub eligible : s.certification_eligible ≡ is_empty s.certification_blockers
  pub banded : band_for r s.overall_score ≡ ok s.band

pub score_with-Scored :
    (r : RubricDefinition) (input : ScoringInput) {s : ScoringResult}
    → score_with r input ≡ ok s
    → Scored r input s
unfolding score_with
score_with-Scored r input h =
    let (ds, e, rest) =
      >>=-eq-ok (score_dimensions r (published input.findings) r.dimensions) _ h in
    let (b, e', rest') = >>=-eq-ok (band_for r _) _ rest in
    record {
      scored = ground arith;
      gates = ground arith;
      overall = ground arith;
      blockers = ground arith;
      eligible = ground arith;
      banded = ground arith;
    }

-- What a scored dimension is made of.
pub record ScoredDimension (r : RubricDefinition) (id : String) (weight : ℕ)
    (fs : List ScoringFinding) (s : DimensionScore) : Type 0 where
  pub named : s.dimension ≡ id
  pub weighs : s.weight ≡ weight
  pub penalty : ℕ
  pub reduced : penalty_from r 0 (filter (of_dimension id) fs) ≡ ok penalty
  pub rounded : s.score ≡ round (clamp_remaining penalty) r.scoring.rounding_decimals

pub score_dimension-ScoredDimension :
    (r : RubricDefinition) (id : String) (weight : ℕ) (fs : List ScoringFinding)
    {s : DimensionScore}
    → score_dimension r id weight fs ≡ ok s
    → ScoredDimension r id weight fs s
unfolding score_dimension
score_dimension-ScoredDimension r id weight fs h =
    let (penalty, e, rest) = >>=-eq-ok (penalty_from r 0 (filter (of_dimension id) fs)) _ h in
    let (band, e', rest') = >>=-eq-ok (band_for r _) _ rest in
    record {
      named = ground arith;
      weighs = ground arith;
      penalty = penalty;
      reduced = e;
      rounded = ground arith;
    }

score_dimension-le :
    (r : RubricDefinition) (id : String) (weight : ℕ) (fs : List ScoringFinding)
    {s : DimensionScore}
    → r.scoring.rounding_decimals ≤ 4
    → score_dimension r id weight fs ≡ ok s
    → s.score ≤ 100 * scale
score_dimension-le r id weight fs d h =
    let s = score_dimension-ScoredDimension r id weight fs h in
    rw s.rounded (round-le _ _ d (clamp_remaining-le s.penalty))

-- The dimensions of a score: at most a hundred points each, and the weighted sum accordingly.
pub score_dimensions-le :
    (r : RubricDefinition) (fs : List ScoringFinding) (ds : List RubricDimension)
    {ss : List DimensionScore}
    → r.scoring.rounding_decimals ≤ 4
    → score_dimensions r fs ds ≡ ok ss
    → ((s : DimensionScore) → Memᴰ s ss → s.score ≤ 100 * scale)
      × (weighted ss ≤ 100 * scale * weight_total ds)
unfolding score_dimensions weighted weight_total
score_dimensions-le r fs [] {ss} d h =
    let e : [] ≡ ss = cc h in rw (← e) ((λ s m. elim m [ ]), omega arith)
score_dimensions-le r fs (x ∷ ds) {ss} d h =
    let (s, e, rest) = >>=-eq-ok (score_dimension r x.id (weight_of x.weight) fs) _ h in
    let (tail, e', rest') = >>=-eq-ok (score_dimensions r fs ds) _ rest in
    let (each, total) = score_dimensions-le r fs ds d e' in
    let bound = score_dimension-le r x.id (weight_of x.weight) fs d e in
    let same : s ∷ tail ≡ ss = cc rest' in
    rw (← same) (
      mem_cons_elim (λ (t : DimensionScore). t.score ≤ 100 * scale) bound each,
      grind (
        arith,
        score_dimension-ScoredDimension r x.id (weight_of x.weight) fs e,
        mul-le-mul_right {m = s.score} (weight_of x.weight) bound,
      ),
    )

pub cap_by_gates-le : (gs : List AppliedGate) (o : ℕ) → cap_by_gates o gs ≤ o
unfolding cap_by_gates
cap_by_gates-le [] o = omega arith
cap_by_gates-le (g ∷ gs) o = ground (arith, cap_by_gates-le gs (cap_at g.cap_overall_at o))

-- Every score of a scorable rubric is between 0 and 100: the overall one and each dimension's.
score_with_bounds :
    (r : RubricDefinition) (input : ScoringInput) {s : ScoringResult}
    → IsScorable r
    → r.scoring.rounding_decimals ≤ 4
    → score_with r input ≡ ok s
    → (s.overall_score ≤ 100 * scale)
      × ((d : DimensionScore) → Memᴰ d s.dimensions → d.score ≤ 100 * scale)
unfolding overall_of
score_with_bounds r input {s} scorable d h =
    let made = score_with-Scored r input h in
    let (each, total) = score_dimensions-le r _ r.dimensions d made.scored in
    let sum = weighted s.dimensions in
    let decimals = r.scoring.rounding_decimals in
    let within : sum ≤ hundred = omega (arith, total, scorable.weights_sum) in
    (
      omega (
        arith,
        made.overall,
        cap_by_gates-le s.gates_applied (round sum decimals),
        round-le sum decimals d within,
      ),
      each,
    )
