-- ===== src/Rubric/Scoring/Monotone.antt =====
-- More findings never help, and a withheld finding never matters (packages/rubric/src/scoring.ts).
use native.Mathlib.Nat.{mul-le-mul_right}
use vibefy.Prelude.{
  ℕ, ◌+◌, ◌≤◌, String, Bool, true, false, some, List, [], ◌∷◌, ◌++◌, Memᴰ, Sublistᴰ,
  Sublistᴰ-filter, any_mono, find?, if◌then◌else◌, ◌==◌, text_eq, ◌≡◌, refl, sym, ap, ◌∙◌, inl, inr,
  Bool-cases, ok, >>=-eq-ok, arith,
}
use vibefy.Rubric.Types.{
  ScoringFinding, ScoringInput, DimensionScore, AppliedGate, RubricGate, RubricDimension,
  RubricDefinition, ScoringResult,
}
use vibefy.Rubric.Fixed.{clamp_remaining_anti, round_mono}
use vibefy.Rubric.Registry.{weight_of, is_run_fact}
use vibefy.Rubric.Scoring.{
  finding_penalty, penalty_from, of_dimension, score_dimension, score_dimensions, weighted,
  gate_matches, gate_triggers, applied, applicable_gates, cap_at, cap_by_gates, dimension_is,
  published, overall_of, score_with,
}
use vibefy.Rubric.Scoring.Bounds.{score_with-Scored, score_dimension-ScoredDimension}
use vibefy.Rubric.Scoring.Certification.{MeetsFloors, eligible_iff}

penalty_from_mono :
    (r : RubricDefinition) {xs ys : List ScoringFinding} (t t' p p' : ℕ)
    → Sublistᴰ xs ys
    → t ≤ t'
    → penalty_from r t xs ≡ ok p
    → penalty_from r t' ys ≡ ok p'
    → p ≤ p'
unfolding penalty_from
penalty_from_mono r t t' p p' Sublistᴰ.slnil le e e' = ground arith
penalty_from_mono r t t' p p' (Sublistᴰ.cons {a = y} w) le e e' =
    let (q, _, rest) = >>=-eq-ok (finding_penalty r y) _ e' in
    penalty_from_mono r t (t' + q) p p' w (omega arith) e rest
penalty_from_mono r t t' p p' (Sublistᴰ.cons-cons {a = x} {b = y} same w) le e e' =
    let (q, cost, rest) = >>=-eq-ok (finding_penalty r x) _ e in
    let (q', cost', rest') = >>=-eq-ok (finding_penalty r y) _ e' in
    let equal : q ≡ q' = cc (ap (finding_penalty r) same) in
    penalty_from_mono r (t + q) (t' + q') p p' w (omega arith) rest rest'

score_dimension_anti :
    (r : RubricDefinition) (id : String) (weight : ℕ) {xs ys : List ScoringFinding}
    {s s' : DimensionScore}
    → Sublistᴰ xs ys
    → score_dimension r id weight xs ≡ ok s
    → score_dimension r id weight ys ≡ ok s'
    → s'.score ≤ s.score
score_dimension_anti r id weight w e e' =
    let m = score_dimension-ScoredDimension r id weight _ e in
    let m' = score_dimension-ScoredDimension r id weight _ e' in
    rw (m.rounded, m'.rounded)
      (round_mono _ _ r.scoring.rounding_decimals (
        clamp_remaining_anti _ _ (
          penalty_from_mono r 0 0 m.penalty m'.penalty (Sublistᴰ-filter (of_dimension id) w)
            (omega arith) m.reduced m'.reduced)))

-- The same dimensions and weights, with scores that are no higher on the left.
abbrev Lower : List DimensionScore → List DimensionScore → Type 0
Lower [] [] = Unit
Lower (x ∷ xs) (y ∷ ys) =
    (x.dimension ≡ y.dimension) × (x.weight ≡ y.weight) × (x.score ≤ y.score) × Lower xs ys
Lower _ _ = ⊥

score_dimensions-Lower :
    (r : RubricDefinition) (ds : List RubricDimension) {xs ys : List ScoringFinding}
    (ss ss' : List DimensionScore)
    → Sublistᴰ xs ys
    → score_dimensions r xs ds ≡ ok ss
    → score_dimensions r ys ds ≡ ok ss'
    → Lower ss' ss
unfolding score_dimensions
score_dimensions-Lower r [] {xs} {ys} ss ss' w e e' =
    let none_left : [] ≡ ss = cc e in
    let none_left' : [] ≡ ss' = cc e' in rw (← none_left, ← none_left') tt
score_dimensions-Lower r (d ∷ ds) {xs} {ys} ss ss' w e e' =
    let (s, one, rest) = >>=-eq-ok (score_dimension r d.id (weight_of d.weight) xs) _ e in
    let (s', one', rest') = >>=-eq-ok (score_dimension r d.id (weight_of d.weight) ys) _ e' in
    let (tail, others, made) = >>=-eq-ok (score_dimensions r xs ds) _ rest in
    let (tail', others', made') = >>=-eq-ok (score_dimensions r ys ds) _ rest' in
    let m = score_dimension-ScoredDimension r d.id (weight_of d.weight) xs one in
    let m' = score_dimension-ScoredDimension r d.id (weight_of d.weight) ys one' in
    let all_made : s ∷ tail ≡ ss = cc made in
    let all_made' : s' ∷ tail' ≡ ss' = cc made' in
    rw (← all_made, ← all_made')
      (
        m'.named ∙ sym m.named,
        m'.weighs ∙ sym m.weighs,
        score_dimension_anti r d.id (weight_of d.weight) w one one',
        score_dimensions-Lower r ds tail tail' w others others',
      )

weighted_mono : (xs ys : List DimensionScore) → Lower xs ys → weighted xs ≤ weighted ys
unfolding weighted
weighted_mono [] [] h = omega arith
weighted_mono (x ∷ xs) (y ∷ ys) (named, weighs, le, h) =
    grind (arith, weighted_mono xs ys h, mul-le-mul_right x.weight le)
weighted_mono [] (y ∷ ys) h = absurd h
weighted_mono (x ∷ xs) [] h = absurd h

triggers_mono :
    (g : RubricGate) (unreachable : Bool) {xs ys : List ScoringFinding}
    → Sublistᴰ xs ys
    → gate_triggers g xs unreachable ≡ true
    → gate_triggers g ys unreachable ≡ true
unfolding gate_triggers
triggers_mono g unreachable {xs} {ys} w h = elim (Bool-cases (is_run_fact g.id)) [
  | inl run ↦ rw run (rw (run, gate_triggers) at h)
  | inr findings ↦ rw findings (any_mono (gate_matches g) w (rw (findings, gate_triggers) at h))
]

applicable_gates-Sublistᴰ :
    (gs : List RubricGate) {xs ys : List ScoringFinding} (unreachable : Bool)
    → Sublistᴰ xs ys
    → Sublistᴰ (applicable_gates gs xs unreachable) (applicable_gates gs ys unreachable)
unfolding applicable_gates gate_triggers
applicable_gates-Sublistᴰ [] unreachable w = Sublistᴰ.slnil
applicable_gates-Sublistᴰ (g ∷ gs) {xs} {ys} unreachable w =
    let rest = applicable_gates-Sublistᴰ gs unreachable w in
    grow (gate_triggers g xs unreachable) (gate_triggers g ys unreachable)
      (applicable_gates gs xs unreachable) (applicable_gates gs ys unreachable)
      (triggers_mono g unreachable w) rest
  where
    grow :
        (b b' : Bool) (ks bs : List AppliedGate)
        → (b ≡ true → b' ≡ true)
        → Sublistᴰ ks bs
        → Sublistᴰ (if b then applied g ∷ ks else ks) (if b' then applied g ∷ bs else bs)
    grow true true ks bs keeps h = Sublistᴰ.cons-cons refl h
    grow true false ks bs keeps h = cc (keeps refl)
    grow false true ks bs keeps h = Sublistᴰ.cons h
    grow false false ks bs keeps h = h

cap_by_gates_mono :
    {gs gs' : List AppliedGate} (o o' : ℕ)
    → Sublistᴰ gs gs'
    → o' ≤ o
    → cap_by_gates o' gs' ≤ cap_by_gates o gs
unfolding cap_by_gates
cap_by_gates_mono o o' Sublistᴰ.slnil le = le
cap_by_gates_mono o o' (Sublistᴰ.cons {a = g} w) le =
    cap_by_gates_mono o (cap_at g.cap_overall_at o') w (ground arith)
cap_by_gates_mono o o' (Sublistᴰ.cons-cons {a = g} {b = g'} same w) le =
    cap_by_gates_mono (cap_at g.cap_overall_at o) (cap_at g'.cap_overall_at o') w
      (ground (arith, ap (λ (a : AppliedGate). a.cap_overall_at) same))

mem_of_Sublistᴰ {ℓ} : {A : Type ℓ} {a : A} {xs ys : List A} → Sublistᴰ xs ys → Memᴰ a xs → Memᴰ a ys
mem_of_Sublistᴰ Sublistᴰ.slnil m = m
mem_of_Sublistᴰ (Sublistᴰ.cons w) m = Memᴰ.tail (mem_of_Sublistᴰ w m)
mem_of_Sublistᴰ (Sublistᴰ.cons-cons q w) (Memᴰ.head e) = Memᴰ.head (e ∙ q)
mem_of_Sublistᴰ (Sublistᴰ.cons-cons q w) (Memᴰ.tail m) = Memᴰ.tail (mem_of_Sublistᴰ w m)

find?-Lower :
    (id : String) (xs ys : List DimensionScore) (d : DimensionScore)
    → Lower xs ys
    → find? (dimension_is id) ys ≡ some d
    → (d' : DimensionScore) × (find? (dimension_is id) xs ≡ some d') × (d'.score ≤ d.score)
find?-Lower id [] [] d h e = cc
find?-Lower id (x ∷ xs) (y ∷ ys) d (named, weighs, le, h) e =
    elim (Bool-cases (y.dimension == id)) [
      | inl here ↦ (x, rw (named, here), ground (arith, here))
      | inr other ↦
          let (d', found, lower) = find?-Lower id xs ys d h (rw other at e) in
          (d', rw (named, other) found, lower)
    ]
find?-Lower id [] (y ∷ ys) d h e = absurd h
find?-Lower id (x ∷ xs) [] d h e = absurd h

MeetsFloors-Lower :
    (floors : List (String × ℕ)) (xs ys : List DimensionScore)
    → Lower xs ys
    → MeetsFloors floors xs
    → MeetsFloors floors ys
MeetsFloors-Lower floors xs ys h meets floor m d e =
    let (d', found, lower) = find?-Lower floor.0 xs ys d h e in
    omega (arith, meets floor m d' found)

-- With more findings, and the same answer about the core flows, the overall score is no higher and
-- an application that was not eligible for certification does not become so.
pub more_findings_never_help :
    (r : RubricDefinition) (input more : ScoringInput) {s s' : ScoringResult}
    → Sublistᴰ input.findings more.findings
    → input.core_flows_unreachable ≡ more.core_flows_unreachable
    → score_with r input ≡ ok s
    → score_with r more ≡ ok s'
    → (s'.overall_score ≤ s.overall_score)
      × (s'.certification_eligible ≡ true → s.certification_eligible ≡ true)
unfolding overall_of
more_findings_never_help r input more {s} {s'} w same e e' =
    let m = score_with-Scored r input e in
    let m' = score_with-Scored r more e' in
    let shown = Sublistᴰ-filter (λ (f : ScoringFinding). f.is_published) w in
    let lower =
      score_dimensions-Lower r r.dimensions s.dimensions s'.dimensions shown m.scored m'.scored in
    let gates : Sublistᴰ s.gates_applied s'.gates_applied =
      rw (m.gates, m'.gates, same)
        (applicable_gates-Sublistᴰ r.gates more.core_flows_unreachable shown) in
    let overall : s'.overall_score ≤ s.overall_score =
      rw (m.overall, m'.overall)
        (cap_by_gates_mono _ _ gates (
          round_mono _ _ r.scoring.rounding_decimals
            (weighted_mono s'.dimensions s.dimensions lower))) in
    (
      overall,
      λ certified.
          let (quiet, threshold, floors) = (eligible_iff r more e').0 certified in
          (eligible_iff r input e).1 (
            (λ g mem. quiet g (mem_of_Sublistᴰ gates mem)),
            omega (arith, threshold, overall),
            MeetsFloors-Lower r.certification.dimension_floors s'.dimensions s.dimensions lower
                floors,
          ),
    )

published-insert :
    (xs ys : List ScoringFinding) (f : ScoringFinding)
    → f.is_published ≡ false
    → published (xs ++ f ∷ ys) ≡ published (xs ++ ys)
published-insert [] ys f h = rw h
published-insert (x ∷ xs) ys f h = rw (published-insert xs ys f h)

-- A finding that was withheld changes nothing of the result, wherever it stands in the list.
withheld_finding_ignored :
    (r : RubricDefinition) (version : String) (unreachable : Bool) (xs ys : List ScoringFinding)
    (f : ScoringFinding)
    → f.is_published ≡ false
    → score_with r (record {
      rubric_version = version;
      findings = xs ++ f ∷ ys;
      core_flows_unreachable = unreachable;
    })
      ≡ score_with r (record {
        rubric_version = version;
        findings = xs ++ ys;
        core_flows_unreachable = unreachable;
      })
unfolding score_with
withheld_finding_ignored r version unreachable xs ys f h = rw (published-insert xs ys f h)
