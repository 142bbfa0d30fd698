-- ===== src/Monitoring/Regression/Verdict.antt =====
-- What suspends a badge and what is reported (packages/monitoring/src/regression.ts).
use vibefy.Prelude.{
  ℕ, ◌<◌, String, Bool, true, false, Option, none, some, List, [], ◌∷◌, Memᴰ, text_eq, is_empty,
  ◌≡◌, refl, sym, ap, ◌∙◌, ◌↔◌, inl, inr, Bool-cases, Option-cases, arith,
}
use vibefy.Prelude.Int.{pos_part, neg_part}
use vibefy.Monitoring.Types.{severity_eq, Drift, AssessmentSnapshot}
use vibefy.Monitoring.Drift.{drift_of}
use vibefy.Monitoring.Drift.Unchanged.{IsUnchanged, same_result-IsUnchanged}
use vibefy.Monitoring.Regression.{
  MaterialityPolicy, RegressionRuleId, certification_lost, serious_new_security_finding,
  serious_escalation, score_drop, score_below_certification_threshold, dimension_below_floor,
  Explanation, RegressionReason, evaluate, rules, with_reason, reasons_of, assess_materiality,
}
use vibefy.Monitoring.Regression.Rules.{Fires, evaluate_iff}

not_in_nil {ℓ} : {A : Type ℓ} {a : A} → Memᴰ a [] → ⊥
not_in_nil i = elim i [ ]

reasons_of→ :
    (ids : List RegressionRuleId) (d : Drift) (p : MaterialityPolicy) (r : RegressionReason)
    → Memᴰ r (reasons_of ids d p)
    → Memᴰ r.rule ids × (evaluate r.rule d p ≡ some r.explanation)
unfolding reasons_of
reasons_of→ [] d p r i = elim i [ ]
reasons_of→ (id ∷ ids) d p r i = go (evaluate id d p) refl (reasons_of→ ids d p r) i
  where
    go :
        (o : Option Explanation)
        → evaluate id d p ≡ o
        → (Memᴰ r (reasons_of ids d p)
            → Memᴰ r.rule ids × (evaluate r.rule d p ≡ some r.explanation))
        → Memᴰ r (with_reason id o (reasons_of ids d p))
        → Memᴰ r.rule (id ∷ ids) × (evaluate r.rule d p ≡ some r.explanation)
    go none q rest j = let (there, e) = rest j in (Memᴰ.tail there, e)
    go (some x) q rest (Memᴰ.head h) = (
      Memᴰ.head (ap (λ (y : RegressionReason). y.rule) h),
      ap (λ (y : RegressionReason). evaluate y.rule d p) h
          ∙ q
          ∙ ap (λ (y : RegressionReason). some y.explanation) (sym h),
    )
    go (some x) q rest (Memᴰ.tail j) = let (there, e) = rest j in (Memᴰ.tail there, e)

reasons_of← :
    (id : RegressionRuleId) (e : Explanation) (ids : List RegressionRuleId) (d : Drift)
    (p : MaterialityPolicy)
    → Memᴰ id ids
    → evaluate id d p ≡ some e
    → Memᴰ (record { rule = id; explanation = e }) (reasons_of ids d p)
unfolding reasons_of
reasons_of← id e [] d p i h = elim i [ ]
reasons_of← id e (x ∷ ids) d p (Memᴰ.head q) h =
    rw (ap (λ y. evaluate y d p) (sym q) ∙ h)
      (Memᴰ.head (ap (λ (y : RegressionRuleId). record { rule = y; explanation = e }) q))
reasons_of← id e (x ∷ ids) d p (Memᴰ.tail i) h = elim (Option-cases (evaluate x d p)) [
  | inl quiet ↦ rw quiet (reasons_of← id e ids d p i h)
  | inr (y, said) ↦ rw said (Memᴰ.tail (reasons_of← id e ids d p i h))
]

listed : (id : RegressionRuleId) → Memᴰ id rules
listed certification_lost = Memᴰ.head refl
listed serious_new_security_finding = Memᴰ.tail (Memᴰ.head refl)
listed serious_escalation = Memᴰ.tail (Memᴰ.tail (Memᴰ.head refl))
listed score_drop = Memᴰ.tail (Memᴰ.tail (Memᴰ.tail (Memᴰ.head refl)))
listed score_below_certification_threshold =
    Memᴰ.tail (Memᴰ.tail (Memᴰ.tail (Memᴰ.tail (Memᴰ.head refl))))
listed dimension_below_floor =
    Memᴰ.tail (Memᴰ.tail (Memᴰ.tail (Memᴰ.tail (Memᴰ.tail (Memᴰ.head refl)))))

reasons_listed :
    (d : Drift) (p : MaterialityPolicy) → (assess_materiality d p).reasons ≡ reasons_of rules d p
unfolding assess_materiality
reasons_listed d p = ground arith

-- Every rule that has fired is reported, and only those, whether or not a suspension is withheld.
reasons_iff :
    (d : Drift) (p : MaterialityPolicy) (id : RegressionRuleId)
    → ((e : Explanation) × Memᴰ {A = RegressionReason}
          (record { rule = id; explanation = e })
          (assess_materiality d p).reasons)
      ↔ Fires id d p
reasons_iff d p id = rw (reasons_listed d p) (
  (λ (e, i). (evaluate_iff id d p).0 (e, (reasons_of→ rules d p _ i).1)),
  λ fires.
      let (e, said) = (evaluate_iff id d p).1 fires in
      (e, reasons_of← id e rules d p (listed id) said),
)

suspends :
    (d : Drift) (p : MaterialityPolicy)
    → ((assess_materiality d p).suspend_badge ≡ true) ↔ (
        (d.comparable ≡ true)
        × (d.coverage_shrank ≡ false)
        × (is_empty (reasons_of rules d p) ≡ false))
unfolding assess_materiality
suspends d p = (λ h. ground arith, λ h. ground arith)

some_reason {ℓ} : {A : Type ℓ} (xs : List A) → (is_empty xs ≡ false) ↔ ((x : A) × Memᴰ x xs)
some_reason [] = ((λ h. cc), λ (x, i). elim i [ ])
some_reason (x ∷ xs) = ((λ h. (x, Memᴰ.head refl)), λ h. refl)

-- A badge is suspended exactly when the two assessments used one rubric version, the later one did
-- not test less than the earlier, and at least one rule has fired.
pub suspend_iff :
    (d : Drift) (p : MaterialityPolicy)
    → ((assess_materiality d p).suspend_badge ≡ true) ↔ (
        (d.comparable ≡ true)
        × (d.coverage_shrank ≡ false)
        × ((id : RegressionRuleId) × Fires id d p))
suspend_iff d p = (
  (λ h.
      let (comparable, reach, reasons) = (suspends d p).0 h in
      let (r, i) = (some_reason (reasons_of rules d p)).0 reasons in
      (
        comparable,
        reach,
        (r.rule, (evaluate_iff r.rule d p).0 (r.explanation, (reasons_of→ rules d p r i).1)),
      )),
  λ (comparable, reach, some_rule).
      let (id, fires) = some_rule in
      let (e, said) = (evaluate_iff id d p).1 fires in
      (suspends d p).1 (
        comparable,
        reach,
        (some_reason (reasons_of rules d p)).1 (_, reasons_of← id e rules d p (listed id) said),
      ),
)

nothing-Fires :
    (d : Drift) (p : MaterialityPolicy)
    → IsUnchanged d
    → 0 < p.score_drop_points
    → (id : RegressionRuleId) → Fires id d p
    → ⊥
nothing-Fires d p u drop certification_lost h = cc (u.certification_kept, h)
nothing-Fires d p u drop serious_new_security_finding (f, i, _, _) = not_in_nil (rw u.none_new at i)
nothing-Fires d p u drop serious_escalation (e, i, _, _, _) = not_in_nil (rw u.none_escalated at i)
nothing-Fires d p u drop score_drop h =
    omega (arith, ap pos_part u.score_kept, ap neg_part u.score_kept)
nothing-Fires d p u drop score_below_certification_threshold (above, below) =
    omega (arith, u.same_score)
nothing-Fires d p u drop dimension_below_floor (e, floor, i, _, above, below) =
    omega (arith, u.dimensions_kept e i)

-- An assessment with the same result as the one before it, under another id and at another time,
-- fires no rule and suspends no badge, if the policy asks for some drop at all.
same_result_keeps_badge :
    (collates_before : String → String → Bool) (s : AssessmentSnapshot) (id : String) (at : ℕ)
    (p : MaterialityPolicy)
    → 0 < p.score_drop_points
    → let d = drift_of collates_before s (record s { assessment_id = id; assessed_at = at }) in
      ((rule : RegressionRuleId) → Fires rule d p → ⊥)
      × ((assess_materiality d p).suspend_badge ≡ false)
same_result_keeps_badge collates_before s id at p drop =
    let d = drift_of collates_before s (record s { assessment_id = id; assessed_at = at }) in
    let quiet = nothing-Fires d p (same_result-IsUnchanged collates_before s id at) drop in
    (
      quiet,
      elim (Bool-cases (assess_materiality d p).suspend_badge) [
        | inl suspended ↦
            let (rule, fires) = ((suspend_iff d p).0 suspended).2 in absurd (quiet rule fires)
        | inr kept ↦ kept
      ],
    )
