-- ===== src/Policy/Evaluate/Meets.antt =====
-- When an assessment meets a profile (packages/policy/src/evaluate.ts).
use vibefy.Prelude.{
  ℕ, ◌≤◌, String, Bool, true, false, Option, none, some, List, [], ◌∷◌, ◌++◌, Memᴰ, Sublistᴰ,
  mem_cons_elim, is_empty, text_eq, ◌≡◌, refl, ◌∙◌, ◌↔◌, inl, inr, Bool-cases, arith,
}
use vibefy.Prelude.Dict.{lookup}
use vibefy.Policy.Evaluate.{
  PolicyProfile, OpenFinding, PolicySubject, severity_rank, is_above, score_failures, floor_failure,
  floor_failures, over_failures, over_ceiling, ceiling_failures, severity_failures,
  certification_failures, store_failures, scores_of, failures_of, evaluate_policy,
}

-- What the profile asks, rule by rule.
pub record Meets (profile : PolicyProfile) (subject : PolicySubject) : Type 0 where
  pub score : (least : ℕ) → profile.min_overall_score ≡ some least → least ≤ subject.overall_score
  pub floors :
      (entry : String × ℕ)
      → Memᴰ entry profile.dimension_floors
      → (score : ℕ) × (lookup entry.0 (scores_of subject) ≡ some score) × (entry.1 ≤ score)
  pub severities :
      (permitted : String)
      → profile.max_open_severity ≡ some permitted
      → (ceiling : ℕ) × (severity_rank permitted ≡ some ceiling)
        × ((f : OpenFinding)
            → Memᴰ f subject.open_findings
            → (rank : ℕ) → severity_rank f.severity ≡ some rank
            → rank ≤ ceiling)
  pub certification : profile.require_certification ≡ true → subject.certification_eligible ≡ true
  pub store :
      profile.require_store_readiness ≡ true
      → (subject.intended_for_app_store ≡ true)
        × ((score : ℕ) × (lookup "store_distribution_readiness" (scores_of subject) ≡ some score))

is_empty-append {ℓ} :
    {A : Type ℓ} (xs ys : List A)
    → (is_empty (xs ++ ys) ≡ true) ↔ ((is_empty xs ≡ true) × (is_empty ys ≡ true))
is_empty-append [] ys = ground arith
is_empty-append (x ∷ xs) ys = ground arith

score_iff :
    (o : Option ℕ) (score : ℕ)
    → (is_empty (score_failures o score) ≡ true) ↔ ((least : ℕ) → o ≡ some least → least ≤ score)
score_iff none score = (λ _ least h. cc, λ _. refl)
score_iff (some n) score = (λ h least e. ground arith, λ h. let le = h n refl in ground arith)

floor_iff :
    (dimension : String) (floor : ℕ) (o : Option ℕ)
    → (is_empty (floor_failure dimension floor o) ≡ true)
      ↔ ((score : ℕ) × (o ≡ some score) × (floor ≤ score))
floor_iff dimension floor none = (λ h. cc, λ (score, e, le). cc e)
floor_iff dimension floor (some n) =
    (λ h. (n, refl, ground arith), λ (score, e, le). ground (arith, e, le))

floors_iff :
    (scores floors : List (String × ℕ))
    → (is_empty (floor_failures scores floors) ≡ true) ↔ (
        (entry : String × ℕ)
        → Memᴰ entry floors
        → (score : ℕ) × (lookup entry.0 scores ≡ some score) × (entry.1 ≤ score))
unfolding floor_failures
floors_iff scores [] = (λ h entry i. elim i [ ], λ h. refl)
floors_iff scores ((dimension, floor) ∷ floors) =
    let both = is_empty-append (floor_failure dimension floor (lookup dimension scores)) _ in
    let head = floor_iff dimension floor (lookup dimension scores) in
    let rest = floors_iff scores floors in
    (
      (λ h.
          let (here, there) = both.0 h in
          mem_cons_elim
            (λ entry. (score : ℕ) × (lookup entry.0 scores ≡ some score) × (entry.1 ≤ score))
            (head.0 here) (rest.0 there)),
      λ h.
          both.1
            (head.1 (h (dimension, floor) (Memᴰ.head refl)), rest.1 (λ e i. h e (Memᴰ.tail i))),
    )

NoneAbove : ℕ → List OpenFinding → Type 0
NoneAbove ceiling fs =
    (f : OpenFinding)
    → Memᴰ f fs
    → (rank : ℕ) → severity_rank f.severity ≡ some rank
    → rank ≤ ceiling

above_iff :
    (o : Option ℕ) (ceiling : ℕ)
    → (is_above o ceiling ≡ false) ↔ ((rank : ℕ) → o ≡ some rank → rank ≤ ceiling)
above_iff none ceiling = (λ _ rank e. cc, λ _. refl)
above_iff (some n) ceiling = (λ h rank e. ground arith, λ h. let le = h n refl in ground arith)

over_iff :
    (permitted : String) (ceiling : ℕ) (fs : List OpenFinding)
    → (is_empty (over_failures permitted (over_ceiling ceiling fs)) ≡ true) ↔ NoneAbove ceiling fs
unfolding over_ceiling NoneAbove
over_iff permitted ceiling [] = (λ h f i. elim i [ ], λ h. refl)
over_iff permitted ceiling (f ∷ fs) =
    elim (Bool-cases (is_above (severity_rank f.severity) ceiling)) [
      | inl above ↦ (
        (λ h. cc (rw above at h)),
        λ h.
            let below = (above_iff (severity_rank f.severity) ceiling).1 (h f (Memᴰ.head refl)) in
            cc (above, below),
      )
      | inr below ↦
          let rest = over_iff permitted ceiling fs in
          (
            (λ h.
                mem_cons_elim
                  (λ (g : OpenFinding).
                    (rank : ℕ) → severity_rank g.severity ≡ some rank → rank ≤ ceiling)
                  ((above_iff (severity_rank f.severity) ceiling).0 below)
                  (rest.0 (rw below at h))),
            λ h. rw below (rest.1 (λ g i. h g (Memᴰ.tail i))),
          )
    ]

ceiling_iff :
    (permitted : String) (o : Option ℕ) (fs : List OpenFinding)
    → (is_empty (ceiling_failures permitted o fs) ≡ true)
      ↔ ((ceiling : ℕ) × (o ≡ some ceiling) × NoneAbove ceiling fs)
unfolding NoneAbove
ceiling_iff permitted none fs = (λ h. cc, λ (c, e, h). cc e)
ceiling_iff permitted (some n) fs = (
  (λ h. (n, refl, (over_iff permitted n fs).0 h)),
  λ (c, e, h). let q : c ≡ n = cc e in (over_iff permitted n fs).1 (rw (← q) h),
)

severity_iff :
    (o : Option String) (fs : List OpenFinding)
    → (is_empty (severity_failures o fs) ≡ true) ↔ (
        (permitted : String)
        → o ≡ some permitted
        → (ceiling : ℕ) × (severity_rank permitted ≡ some ceiling) × NoneAbove ceiling fs)
unfolding severity_failures
severity_iff none fs = (λ h permitted e. cc, λ h. refl)
severity_iff (some s) fs = (
  (λ h permitted e.
      let q : s ≡ permitted = cc in rw (← q) ((ceiling_iff s (severity_rank s) fs).0 h)),
  λ h. (ceiling_iff s (severity_rank s) fs).1 (h s refl),
)

certification_iff :
    (required eligible : Bool)
    → (is_empty (certification_failures required eligible) ≡ true)
      ↔ (required ≡ true → eligible ≡ true)
certification_iff true true = ground arith
certification_iff true false = (λ h. cc, λ h. cc (h refl))
certification_iff false eligible = ground arith

store_iff :
    (required intended : Bool) (o : Option ℕ)
    → (is_empty (store_failures required intended o) ≡ true)
      ↔ (required ≡ true → (intended ≡ true) × ((score : ℕ) × (o ≡ some score)))
store_iff true true (some n) = (λ _ _. (refl, (n, refl)), λ _. refl)
store_iff true true none = (λ h. cc, λ h. let (_, (n, e)) = h refl in cc e)
store_iff true false o = (λ h. cc, λ h. let (e, _) = h refl in cc e)
store_iff false intended o = (λ _ h. cc, λ _. refl)

-- An assessment meets a profile exactly when it meets each rule that the profile sets: the least
-- overall score; a score for every dimension with a floor, not below the floor; a permitted severity
-- that the rubric knows and that no open finding is above; certification; and, for store readiness,
-- an application meant for a store whose store dimension was scored.
pub meets_policy_iff :
    (profile : PolicyProfile) (subject : PolicySubject)
    → ((evaluate_policy profile subject).meets_policy ≡ true) ↔ Meets profile subject
unfolding evaluate_policy failures_of NoneAbove
meets_policy_iff profile subject =
    let score = score_iff profile.min_overall_score subject.overall_score in
    let floors = floors_iff (scores_of subject) profile.dimension_floors in
    let severity = severity_iff profile.max_open_severity subject.open_findings in
    let certified =
      certification_iff profile.require_certification subject.certification_eligible in
    let store =
      store_iff profile.require_store_readiness subject.intended_for_app_store
        (lookup "store_distribution_readiness" (scores_of subject)) in
    (
      (λ h.
          let (but_store, t) = (is_empty-append _ _).0 h in
          let (but_certification, c) = (is_empty-append _ _).0 but_store in
          let (but_severity, v) = (is_empty-append _ _).0 but_certification in
          let (s, f) = (is_empty-append _ _).0 but_severity in
          record {
            score = score.0 s;
            floors = floors.0 f;
            severities = severity.0 v;
            certification = certified.0 c;
            store = store.0 t;
          }),
      λ m. (is_empty-append _ _).1 (
        (is_empty-append _ _).1 (
          (is_empty-append _ _).1 (
            (is_empty-append _ _).1 (score.1 m.score, floors.1 m.floors),
            severity.1 m.severities,
          ),
          certified.1 m.certification,
        ),
        store.1 m.store,
      ),
    )

mem-Sublistᴰ {ℓ} : {A : Type ℓ} {a : A} {xs ys : List A} → Sublistᴰ xs ys → Memᴰ a xs → Memᴰ a ys
mem-Sublistᴰ (Sublistᴰ.cons w) i = Memᴰ.tail (mem-Sublistᴰ w i)
mem-Sublistᴰ (Sublistᴰ.cons-cons q w) (Memᴰ.head p) = Memᴰ.head (p ∙ q)
mem-Sublistᴰ (Sublistᴰ.cons-cons q w) (Memᴰ.tail i) = Memᴰ.tail (mem-Sublistᴰ w i)
mem-Sublistᴰ Sublistᴰ.slnil i = elim i [ ]

-- More open findings, or a lower overall score, never make an assessment meet a profile.
pub worse_never_helps :
    (profile : PolicyProfile) (subject : PolicySubject) (score : ℕ) (fs : List OpenFinding)
    → score ≤ subject.overall_score
    → Sublistᴰ subject.open_findings fs
    → (evaluate_policy profile
        (record subject { overall_score = score; open_findings = fs })).meets_policy
      ≡ true
    → (evaluate_policy profile subject).meets_policy ≡ true
worse_never_helps profile subject score fs lower more h =
    let m =
      (meets_policy_iff profile (record subject { overall_score = score; open_findings = fs })).0
        h in
    (meets_policy_iff profile subject).1 (record {
      score = λ least e. let enough = m.score least e in omega arith;
      floors = m.floors;
      severities = λ permitted e.
          let (ceiling, known, none_above) = m.severities permitted e in
          (ceiling, known, λ f i. none_above f (mem-Sublistᴰ more i));
      certification = m.certification;
      store = m.store;
    })
