-- ===== src/Rubric/Scoring/Certification.antt =====
-- Gates, caps and the certification decision of packages/rubric/src/scoring.ts.
use vibefy.Prelude.{
  ℕ, ◌≤◌, String, Bool, true, false, Option, none, some, List, [], ◌∷◌, ◌++◌, Memᴰ, mem_cons_elim,
  find?, any_complete, mem_filter←, ltb, le→ltb-false, is_empty_iff, if◌then◌else◌, ◌≡◌, refl, sym,
  ap, ◌∙◌, ◌↔◌, inl, inr, Bool-cases, is_empty, ok, arith,
}
use vibefy.Rubric.Types.{
  ScoringFinding, ScoringInput, DimensionScore, AppliedGate, finite, RubricGate, RubricDefinition,
  below_threshold, ScoringResult,
}
use vibefy.Rubric.Registry.{is_run_fact}
use vibefy.Rubric.Scoring.{
  gate_matches, gate_triggers, applied, applicable_gates, cap_at, cap_of, truthy, cap_by_gates,
  gate_blockers, dimension_is, floor_blocker, floor_blockers, certification_blockers, published,
  overall_of, score_with,
}
use vibefy.Rubric.Scoring.Bounds.{score_with-Scored, cap_by_gates-le}

cap_by_gates-le_cap :
    {g : AppliedGate} {gs : List AppliedGate} (o cap : ℕ)
    → Memᴰ g gs
    → g.cap_overall_at ≡ some cap
    → cap_by_gates o gs ≤ cap
unfolding cap_by_gates
cap_by_gates-le_cap o cap (Memᴰ.head {x = x} {xs = gs} q) e = ground (
  arith,
  cap_by_gates-le gs (cap_at x.cap_overall_at o),
  ap (λ (a : AppliedGate). a.cap_overall_at) q,
)
cap_by_gates-le_cap o cap (Memᴰ.tail {x = x} m) e =
    cap_by_gates-le_cap (cap_at x.cap_overall_at o) cap m e

-- A gate that triggers is among the applied ones.
applicable_gates-Mem :
    (fs : List ScoringFinding) (unreachable : Bool) {g : RubricGate} {gs : List RubricGate}
    → Memᴰ g gs
    → gate_triggers g fs unreachable ≡ true
    → Memᴰ (applied g) (applicable_gates gs fs unreachable)
unfolding applicable_gates
applicable_gates-Mem fs unreachable (Memᴰ.head {x = x} {xs = gs} q) t =
    rw (ap (λ (y : RubricGate). gate_triggers y fs unreachable) (sym q) ∙ t)
      (Memᴰ.head (ap applied q))
applicable_gates-Mem fs unreachable (Memᴰ.tail {x = x} {xs = gs} m) t =
    elim (Bool-cases (gate_triggers x fs unreachable)) [
      | inl fires ↦ rw fires (Memᴰ.tail (applicable_gates-Mem fs unreachable m t))
      | inr rests ↦ rw rests (applicable_gates-Mem fs unreachable m t)
    ]

-- No gate blocks exactly when none of the applied ones says that it does.
open_of_gate_blockers :
    (gs : List AppliedGate)
    → gate_blockers gs ≡ []
    → (g : AppliedGate) → Memᴰ g gs
    → g.blocks_certification ≡ false
unfolding gate_blockers
open_of_gate_blockers [] e = λ g m. elim m [ ]
open_of_gate_blockers (x ∷ gs) e = elim (Bool-cases x.blocks_certification) [
  | inl blocks ↦ cc (rw (blocks, gate_blockers) at e)
  | inr quiet ↦
      mem_cons_elim (λ (g : AppliedGate). g.blocks_certification ≡ false) quiet
        (open_of_gate_blockers gs (rw (quiet, gate_blockers) at e))
]

gate_blockers_of_open :
    (gs : List AppliedGate)
    → ((g : AppliedGate) → Memᴰ g gs → g.blocks_certification ≡ false)
    → gate_blockers gs ≡ []
unfolding gate_blockers
gate_blockers_of_open [] h = refl
gate_blockers_of_open (x ∷ gs) h =
    rw (h x (Memᴰ.head refl)) (gate_blockers_of_open gs (λ g m. h g (Memᴰ.tail m)))

-- A dimension that was scored reaches each floor set for it.
abbrev pub MeetsFloors : List (String × ℕ) → List DimensionScore → Type 0
MeetsFloors floors dimensions =
    (floor : String × ℕ)
    → Memᴰ floor floors
    → (d : DimensionScore) → find? (dimension_is floor.0) dimensions ≡ some d
    → floor.1 ≤ d.score

floor_blocker-nil→ :
    (id : String) (floor : ℕ) (found : Option DimensionScore) (d : DimensionScore)
    → floor_blocker id floor found ≡ []
    → found ≡ some d
    → floor ≤ d.score
floor_blocker-nil→ id floor found d h e = ground arith

floor_blocker-nil← :
    (id : String) (floor : ℕ) (found : Option DimensionScore)
    → ((d : DimensionScore) → found ≡ some d → floor ≤ d.score)
    → floor_blocker id floor found ≡ []
floor_blocker-nil← id floor none h = refl
floor_blocker-nil← id floor (some d) h = ground (arith, h d refl)

append-nil_parts {ℓ} :
    {A : Type ℓ} (xs : List A) {ys : List A} → xs ++ ys ≡ [] → (xs ≡ []) × (ys ≡ [])
append-nil_parts [] h = (refl, h)
append-nil_parts (x ∷ xs) h = cc

MeetsFloors-of_blockers :
    (floors : List (String × ℕ)) (ds : List DimensionScore)
    → floor_blockers floors ds ≡ []
    → MeetsFloors floors ds
unfolding floor_blockers
MeetsFloors-of_blockers [] ds h = λ floor m. elim m [ ]
MeetsFloors-of_blockers ((id, floor) ∷ floors) ds h =
    let (here, there) = append-nil_parts (floor_blocker id floor (find? (dimension_is id) ds)) h in
    mem_cons_elim
      (λ (f : String × ℕ).
        (d : DimensionScore) → find? (dimension_is f.0) ds ≡ some d → f.1 ≤ d.score)
      (λ d e. floor_blocker-nil→ id floor _ d here e) (MeetsFloors-of_blockers floors ds there)

blockers_of_MeetsFloors :
    (floors : List (String × ℕ)) (ds : List DimensionScore)
    → MeetsFloors floors ds
    → floor_blockers floors ds ≡ []
unfolding floor_blockers
blockers_of_MeetsFloors [] ds h = refl
blockers_of_MeetsFloors ((id, floor) ∷ floors) ds h =
    rw (floor_blocker-nil← id floor (find? (dimension_is id) ds) (h (id, floor) (Memᴰ.head refl)))
      (blockers_of_MeetsFloors floors ds (λ f m. h f (Memᴰ.tail m)))

blockers_parts :
    (r : RubricDefinition) (ds : List DimensionScore) (overall : ℕ) (gs : List AppliedGate)
    → certification_blockers r ds overall gs ≡ []
    → ((g : AppliedGate) → Memᴰ g gs → g.blocks_certification ≡ false)
      × (r.certification.overall_threshold ≤ overall)
      × MeetsFloors r.certification.dimension_floors ds
unfolding certification_blockers
blockers_parts r ds overall gs h =
    let (gates, rest) = append-nil_parts (gate_blockers gs) h in
    let (threshold, floors) =
      append-nil_parts
        (if ltb overall r.certification.overall_threshold
          then below_threshold overall r.certification.overall_threshold ∷ []
          else [])
        rest in
    (open_of_gate_blockers gs gates, ground arith, MeetsFloors-of_blockers _ ds floors)

blockers_none :
    (r : RubricDefinition) (ds : List DimensionScore) (overall : ℕ) (gs : List AppliedGate)
    → ((g : AppliedGate) → Memᴰ g gs → g.blocks_certification ≡ false)
    → r.certification.overall_threshold ≤ overall
    → MeetsFloors r.certification.dimension_floors ds
    → certification_blockers r ds overall gs ≡ []
unfolding certification_blockers
blockers_none r ds overall gs gates threshold floors = rw (
  gate_blockers_of_open gs gates,
  le→ltb-false overall r.certification.overall_threshold threshold,
  blockers_of_MeetsFloors r.certification.dimension_floors ds floors,
)

-- An application is eligible for certification exactly when no applied gate blocks it, its overall
-- score reaches the published threshold, and each scored dimension reaches its floors.
pub eligible_iff :
    (r : RubricDefinition) (input : ScoringInput) {s : ScoringResult}
    → score_with r input ≡ ok s
    → (s.certification_eligible ≡ true) ↔ (
        ((g : AppliedGate) → Memᴰ g s.gates_applied → g.blocks_certification ≡ false)
        × (r.certification.overall_threshold ≤ s.overall_score)
        × MeetsFloors r.certification.dimension_floors s.dimensions)
eligible_iff r input {s} h =
    let made = score_with-Scored r input h in
    (
      (λ e.
          blockers_parts r s.dimensions s.overall_score s.gates_applied (
            sym made.blockers ∙ (is_empty_iff s.certification_blockers).0 (sym made.eligible ∙ e))),
      λ (gates, threshold, floors).
          made.eligible
          ∙ ap is_empty (
              made.blockers
              ∙ blockers_none r s.dimensions s.overall_score s.gates_applied gates threshold
                  floors),
    )

-- A published finding that a gate selects applies that gate: its cap bounds the overall score, and
-- if it blocks certification the application is not eligible, whatever else was found.
gate_outvotes :
    (r : RubricDefinition) (input : ScoringInput) {s : ScoringResult} (g : RubricGate)
    (f : ScoringFinding)
    → score_with r input ≡ ok s
    → Memᴰ g r.gates
    → is_run_fact g.id ≡ false
    → Memᴰ f input.findings
    → f.is_published ≡ true
    → gate_matches g f ≡ true
    → ((cap : ℕ) → g.cap_overall_at ≡ finite cap → s.overall_score ≤ cap)
      × (g.blocks_certification ≡ some true → s.certification_eligible ≡ false)
unfolding gate_triggers overall_of
gate_outvotes r input {s} g f h member about_findings found shown matches =
    let made = score_with-Scored r input h in
    let fires : gate_triggers g (published input.findings) input.core_flows_unreachable ≡ true =
      rw (about_findings, gate_triggers)
        (any_complete (gate_matches g)
          (mem_filter← (λ (q : ScoringFinding). q.is_published) found shown) matches) in
    let there : Memᴰ (applied g) s.gates_applied =
      rw made.gates (applicable_gates-Mem _ input.core_flows_unreachable member fires) in
    (
      (λ cap e. rw made.overall (cap_by_gates-le_cap _ cap there (ap cap_of e))),
      λ blocks. elim (Bool-cases s.certification_eligible) [
        | inl certified ↦
            cc (((eligible_iff r input h).0 certified).0 (applied g) there, ap truthy blocks)
        | inr refused ↦ refused
      ],
    )
