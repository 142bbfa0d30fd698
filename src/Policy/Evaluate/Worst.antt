-- ===== src/Policy/Evaluate/Worst.antt =====
-- The finding that a failure names (packages/policy/src/evaluate.ts).
use vibefy.Prelude.{
  ℕ, ◌≤◌, ◌<◌, String, Bool, true, false, Option, none, some, List, [], ◌∷◌, ◌++◌, Memᴰ,
  mem_cons_elim, mem_append→, mem_filter→, mem_filter←, length, ltb, text_eq, ◌≡◌, refl, ap, ◌∙◌,
  inl, inr, Bool-cases, arith,
}
use vibefy.Prelude.Dict.{lookup}
use vibefy.Policy.Evaluate.{
  PolicyProfile, OpenFinding, PolicySubject, PolicyFailure, open_above, severity_rank, is_above,
  outranks, score_failures, floor_failure, floor_failures, worst_from, over_failures, over_ceiling,
  ceiling_failures, severity_failures, certification_failures, store_failures, scores_of,
  failures_of, evaluate_policy,
}

abbrev rank_or : Option ℕ → ℕ
rank_or none = 0
rank_or (some n) = n

-- A finding whose severity is known, with its rank.
abbrev Ranked : OpenFinding → ℕ → Type 0
Ranked f n = severity_rank f.severity ≡ some n

worst_from_lem :
    (a : OpenFinding) (rest : List OpenFinding) (n : ℕ)
    → Ranked a n
    → ((f : OpenFinding) → Memᴰ f rest → (k : ℕ) × Ranked f k)
    → Memᴰ (worst_from a rest) (a ∷ rest)
      × ((w : ℕ) × Ranked (worst_from a rest) w
          × (n ≤ w)
          × ((f : OpenFinding) → Memᴰ f rest → (k : ℕ) → Ranked f k → k ≤ w))
unfolding worst_from
worst_from_lem a [] n e known = (Memᴰ.head refl, (n, e, omega arith, λ f i. elim i [ ]))
worst_from_lem a (b ∷ rest) n e known =
    let (m, e') = known b (Memᴰ.head refl) in
    let later = λ (f : OpenFinding) (i : Memᴰ f rest). known f (Memᴰ.tail i) in
    elim (Bool-cases (ltb n m)) [
      | inl worse ↦
          let (i, (w, q, le, others)) = worst_from_lem b rest m e' later in
          let moved : outranks (severity_rank b.severity) (severity_rank a.severity) ≡ true =
            rw (e, e') worse in
          rw moved (
            Memᴰ.tail i,
            (
              w,
              q,
              ground arith,
              mem_cons_elim (λ (f : OpenFinding). (k : ℕ) → Ranked f k → k ≤ w)
                  (λ k r. let same : k ≡ m = cc (r, e') in omega arith) others,
            ),
          )
      | inr milder ↦
          let (i, (w, q, le, others)) = worst_from_lem a rest n e later in
          let kept : outranks (severity_rank b.severity) (severity_rank a.severity) ≡ false =
            rw (e, e') milder in
          rw kept (
            skip i,
            (
              w,
              q,
              le,
              mem_cons_elim (λ (f : OpenFinding). (k : ℕ) → Ranked f k → k ≤ w)
                  (λ k r. let same : k ≡ m = cc (r, e') in ground arith) others,
            ),
          )
    ]
  where
    skip : {x : OpenFinding} → Memᴰ x (a ∷ rest) → Memᴰ x (a ∷ b ∷ rest)
    skip (Memᴰ.head q) = Memᴰ.head q
    skip (Memᴰ.tail j) = Memᴰ.tail (Memᴰ.tail j)

above_ranked :
    (o : Option ℕ) (ceiling : ℕ)
    → is_above o ceiling ≡ true
    → (n : ℕ) × (o ≡ some n) × (ceiling < n)
above_ranked none ceiling h = cc
above_ranked (some n) ceiling h = (n, refl, ground arith)

-- Whether a failure is the one about open findings.
abbrev names_finding : PolicyFailure → Bool
names_finding (open_above _ _ _) = true
names_finding _ = false

Quiet : List PolicyFailure → Type 0
Quiet failures = (x : PolicyFailure) → Memᴰ x failures → names_finding x ≡ false

Quiet-nil : Quiet []
unfolding Quiet
Quiet-nil x i = elim i [ ]

Quiet-one : (f : PolicyFailure) → names_finding f ≡ false → Quiet (f ∷ [])
unfolding Quiet
Quiet-one f h x (Memᴰ.head q) = ap names_finding q ∙ h
Quiet-one f h x (Memᴰ.tail i) = elim i [ ]

Quiet-append : (xs ys : List PolicyFailure) → Quiet xs → Quiet ys → Quiet (xs ++ ys)
unfolding Quiet
Quiet-append xs ys h k x i = elim (mem_append→ xs i) [ inl l ↦ h x l | inr r ↦ k x r ]

Quiet-score : (o : Option ℕ) (score : ℕ) → Quiet (score_failures o score)
Quiet-score none score = Quiet-nil
Quiet-score (some n) score = elim (Bool-cases (ltb score n)) [
  | inl low ↦ rw low (Quiet-one _ refl)
  | inr enough ↦ rw enough Quiet-nil
]

Quiet-floor : (d : String) (floor : ℕ) (o : Option ℕ) → Quiet (floor_failure d floor o)
Quiet-floor d floor none = Quiet-one _ refl
Quiet-floor d floor (some n) = elim (Bool-cases (ltb n floor)) [
  | inl low ↦ rw low (Quiet-one _ refl)
  | inr enough ↦ rw enough Quiet-nil
]

Quiet-floors : (scores floors : List (String × ℕ)) → Quiet (floor_failures scores floors)
unfolding floor_failures
Quiet-floors scores [] = Quiet-nil
Quiet-floors scores ((d, floor) ∷ floors) =
    Quiet-append _ _ (Quiet-floor d floor (lookup d scores)) (Quiet-floors scores floors)

Quiet-certification : (required eligible : Bool) → Quiet (certification_failures required eligible)
Quiet-certification true true = Quiet-nil
Quiet-certification true false = Quiet-one _ refl
Quiet-certification false eligible = Quiet-nil

Quiet-store : (required intended : Bool) (o : Option ℕ) → Quiet (store_failures required intended o)
Quiet-store true true none = Quiet-one _ refl
Quiet-store true true (some n) = Quiet-nil
Quiet-store true false o = Quiet-one _ refl
Quiet-store false intended o = Quiet-nil

not-Quiet :
    {xs : List PolicyFailure} {x : PolicyFailure}
    → Quiet xs
    → Memᴰ x xs
    → names_finding x ≡ true
    → ⊥
unfolding Quiet
not-Quiet {x = x} quiet i h = let other : names_finding x ≡ false = quiet x i in cc (h, other)

pick :
    (before v after after' : List PolicyFailure) (x : PolicyFailure)
    → Quiet before
    → Quiet after
    → Quiet after'
    → names_finding x ≡ true
    → Memᴰ x (before ++ v ++ after ++ after')
    → Memᴰ x v
pick before v after after' x q r s h i = elim (mem_append→ (before ++ v ++ after) {ys = after'} i) [
  | inr late ↦ absurd (not-Quiet s late h)
  | inl earlier ↦ elim (mem_append→ (before ++ v) {ys = after} earlier) [
    | inr late ↦ absurd (not-Quiet r late h)
    | inl front ↦ elim (mem_append→ before {ys = v} front) [
      | inr there ↦ there
      | inl early ↦ absurd (not-Quiet q early h)
    ]
  ]
]

-- A failure about open findings is one of the severity rule.
from_severity :
    (profile : PolicyProfile) (subject : PolicySubject) (x : PolicyFailure)
    → Memᴰ x (failures_of profile subject)
    → names_finding x ≡ true
    → Memᴰ x (severity_failures profile.max_open_severity subject.open_findings)
unfolding failures_of
from_severity profile subject x i h =
    pick
      (score_failures profile.min_overall_score subject.overall_score
        ++ floor_failures (scores_of subject) profile.dimension_floors)
      _ _ _ x
      (Quiet-append _ _ (Quiet-score profile.min_overall_score subject.overall_score)
        (Quiet-floors (scores_of subject) profile.dimension_floors))
      (Quiet-certification profile.require_certification subject.certification_eligible)
      (Quiet-store profile.require_store_readiness subject.intended_for_app_store
        (lookup "store_distribution_readiness" (scores_of subject)))
      h i

-- What the failure about open findings says.
abbrev pub Reports : List OpenFinding → ℕ → ℕ → OpenFinding → Type 0
Reports fs ceiling count worst =
    (count ≡ length (over_ceiling ceiling fs))
    × Memᴰ worst fs
    × ((rank : ℕ) × (severity_rank worst.severity ≡ some rank)
        × (ceiling < rank)
        × ((f : OpenFinding) → Memᴰ f fs → (k : ℕ) → severity_rank f.severity ≡ some k → k ≤ rank))

over-Reports :
    (permitted limit : String) (ceiling count : ℕ) (worst : OpenFinding) (fs : List OpenFinding)
    → Memᴰ (open_above count limit worst) (over_failures permitted (over_ceiling ceiling fs))
    → Reports fs ceiling count worst
unfolding over_ceiling
over-Reports permitted limit ceiling count worst fs i = go (over_ceiling ceiling fs) refl i
  where
    above : OpenFinding → Bool
    above f = is_above (severity_rank f.severity) ceiling

    at_ceiling :
        (over : List OpenFinding)
        → over ≡ over_ceiling ceiling fs
        → (f : OpenFinding) → Memᴰ f over
        → Memᴰ f fs × ((k : ℕ) × Ranked f k × (ceiling < k))
    at_ceiling over q f m =
        let (there, test) = mem_filter→ above fs (rw q at m) in (there, above_ranked _ ceiling test)

    reaches :
        (over : List OpenFinding)
        → over ≡ over_ceiling ceiling fs
        → (f : OpenFinding) → Memᴰ f fs
        → (k : ℕ) → Ranked f k
        → ceiling < k
        → Memᴰ f over
    reaches over q f m k r lt =
        rw q (mem_filter← above m (ap (λ o. is_above o ceiling) r ∙ ground (arith, lt)))

    go :
        (over : List OpenFinding)
        → over ≡ over_ceiling ceiling fs
        → Memᴰ (open_above count limit worst) (over_failures permitted over)
        → Reports fs ceiling count worst
    go [] q m = elim m [ ]
    go (f ∷ rest) q (Memᴰ.tail m) = elim m [ ]
    go (f ∷ rest) q (Memᴰ.head e) =
        let counted : count ≡ length (f ∷ rest) = cc e in
        let named : worst ≡ worst_from f rest = cc e in
        let (_, (n, rf, lt)) = at_ceiling (f ∷ rest) q f (Memᴰ.head refl) in
        let known : (g : OpenFinding) → Memᴰ g rest → (k : ℕ) × Ranked g k =
          λ g m. let (_, (k, r, _)) = at_ceiling (f ∷ rest) q g (Memᴰ.tail m) in (k, r) in
        let (m, (w, rw_, le, others)) = worst_from_lem f rest n rf known in
        let (there, _) = at_ceiling (f ∷ rest) q (worst_from f rest) m in
        let bound =
          mem_cons_elim (λ (g : OpenFinding). (k : ℕ) → Ranked g k → k ≤ w)
            (λ k r. let same : k ≡ n = cc (r, rf) in omega arith) others in
        (
          counted ∙ ap length q,
          rw named there,
          (
            w,
            ap (λ (x : OpenFinding). severity_rank x.severity) named ∙ rw_,
            omega (arith, lt, le),
            λ g i k r. elim (Bool-cases (ltb ceiling k)) [
              | inl over ↦ bound g (reaches (f ∷ rest) q g i k r (ground arith)) k r
              | inr under ↦ ground arith
            ],
          ),
        )

severity-Reports :
    (o : Option String) (limit : String) (count : ℕ) (worst : OpenFinding) (fs : List OpenFinding)
    → Memᴰ (open_above count limit worst) (severity_failures o fs)
    → (permitted : String) × (ceiling : ℕ) × (o ≡ some permitted)
      × (severity_rank permitted ≡ some ceiling)
      × Reports fs ceiling count worst
unfolding severity_failures
severity-Reports none limit count worst fs i = elim i [ ]
severity-Reports (some s) limit count worst fs i = go (severity_rank s) refl i
  where
    go :
        (r : Option ℕ)
        → severity_rank s ≡ r
        → Memᴰ (open_above count limit worst) (ceiling_failures s r fs)
        → (permitted : String) × (ceiling : ℕ) × (some s ≡ some permitted)
          × (severity_rank permitted ≡ some ceiling)
          × Reports fs ceiling count worst
    go none e m = absurd (not-Quiet (Quiet-one (PolicyFailure.unknown_ceiling s) refl) m refl)
    go (some ceiling) e m = (s, ceiling, refl, e, over-Reports s limit ceiling count worst fs m)

-- A failure that names an open finding names one of the open findings, above the permitted severity
-- and at least as serious as every other of a known severity, and counts those that are above it.
worst_is_worst :
    (profile : PolicyProfile) (subject : PolicySubject) (count : ℕ) (limit : String)
    (worst : OpenFinding)
    → Memᴰ (open_above count limit worst) (evaluate_policy profile subject).failures
    → (permitted : String) × (ceiling : ℕ) × (profile.max_open_severity ≡ some permitted)
      × (severity_rank permitted ≡ some ceiling)
      × Reports subject.open_findings ceiling count worst
unfolding evaluate_policy
worst_is_worst profile subject count limit worst i =
    severity-Reports profile.max_open_severity limit count worst subject.open_findings
      (from_severity profile subject (open_above count limit worst) i refl)
