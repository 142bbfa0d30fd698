-- ===== src/Monitoring/Regression/Rules.antt =====
-- What each rule of packages/monitoring/src/regression.ts is about, and that its test says so.
use vibefy.Prelude.{
  ℕ, ◌+◌, ◌≤◌, ◌<◌, Bool, true, false, not, ◌&&◌, Option, none, some, List, [], ◌∷◌, Memᴰ, Eq,
  text_eq, includes, includes_sound, includes_complete, filter, mem_filter→, mem_filter←, leb, ltb,
  ltb→lt, lt→ltb, if◌then◌else◌, ◌≡◌, refl, ◌↔◌, inl, inr, and_true, Bool-cases, arith,
}
use vibefy.Prelude.Int.{ℤ, pos_part, neg_part, leb_ℤ, neg_ℕ}
use vibefy.Prelude.Dict.{lookup}
use vibefy.Monitoring.Types.{
  severity_rank, severity_eq, DimensionDelta, FindingChange, Escalation, Drift,
}
use vibefy.Monitoring.Regression.{
  MaterialityPolicy, RegressionRuleId, certification_lost, serious_new_security_finding,
  serious_escalation, score_drop, score_below_certification_threshold, dimension_below_floor,
  Explanation, is_serious_new, is_serious_escalation, floor_breached, is_breached, explain_new,
  explain_escalated, explain_breached, evaluate,
}

-- What each rule is about, in its own terms.
abbrev pub Fires : RegressionRuleId → Drift → MaterialityPolicy → Type 0
Fires certification_lost d p = d.certification_lost ≡ true
Fires serious_new_security_finding d p =
    (f : FindingChange) × Memᴰ f d.new_findings
    × Memᴰ f.dimension p.sensitive_dimensions
    × Memᴰ f.severity p.serious_severities
Fires serious_escalation d p =
    (e : Escalation) × Memᴰ e d.escalated_findings
    × Memᴰ e.change.severity p.serious_severities
    × (Memᴰ e.was_severity p.serious_severities → ⊥)
    × (severity_rank e.was_severity < severity_rank e.change.severity)
Fires score_drop d p = pos_part d.score_delta + p.score_drop_points ≤ neg_part d.score_delta
Fires score_below_certification_threshold d p =
    (p.certification_threshold ≤ d.score_before) × (d.score_after < p.certification_threshold)
Fires dimension_below_floor d p =
    (e : DimensionDelta) × (floor : ℕ) × Memᴰ e d.dimension_deltas
    × (lookup e.dimension p.dimension_floors ≡ some floor)
    × (floor ≤ e.before)
    × (e.after < floor)

abbrev pub Says : RegressionRuleId → Drift → MaterialityPolicy → Type 0
Says id d p = (e : Explanation) × (evaluate id d p ≡ some e)

-- A rule that explains the first of the items that pass says something exactly when one passes.
list_rule :
    {A : Type 0} (explain : List A → Option Explanation) (p : A → Bool) (ys : List A)
    → explain [] ≡ none
    → ((x : A) (xs : List A) → (e : Explanation) × (explain (x ∷ xs) ≡ some e))
    → ((e : Explanation) × (explain (filter p ys) ≡ some e)) ↔ ((y : A) × Memᴰ y ys × (p y ≡ true))
list_rule {A} explain p ys quiet speaks = (
  (λ says. forth (filter p ys) refl says),
  λ (y, there, passes). back (filter p ys) (mem_filter← p there passes),
)
  where
    forth :
        (zs : List A)
        → zs ≡ filter p ys
        → (e : Explanation) × (explain zs ≡ some e)
        → (y : A) × Memᴰ y ys × (p y ≡ true)
    forth [] q (e, h) = cc (quiet, h)
    forth (z ∷ zs) q _ =
        let (there, passes) = mem_filter→ p ys (rw (← q) (Memᴰ.head refl)) in (z, there, passes)

    back : {y : A} (zs : List A) → Memᴰ y zs → (e : Explanation) × (explain zs ≡ some e)
    back [] i = elim i [ ]
    back (z ∷ zs) i = speaks z zs

-- A rule that is one test says something exactly when the test passes.
test_rule :
    (b : Bool) (said : Explanation) {P : Type 0}
    → (b ≡ true) ↔ P
    → ((e : Explanation) × ((if b then some said else none) ≡ some e)) ↔ P
test_rule true said test = ((λ _. test.0 refl), λ _. (said, refl))
test_rule false said test = ((λ (e, h). cc), λ h. cc (test.1 h))

fell_by_iff :
    (delta : ℤ) (drop : ℕ)
    → (leb_ℤ delta (neg_ℕ drop) ≡ true) ↔ (pos_part delta + drop ≤ neg_part delta)
fell_by_iff delta drop = ground arith

crossed_iff :
    (line before after : ℕ)
    → ((leb line before && ltb after line) ≡ true) ↔ ((line ≤ before) × (after < line))
crossed_iff line before after = ground arith

breached_iff :
    (entry : DimensionDelta) (o : Option ℕ)
    → (floor_breached entry o ≡ true)
      ↔ ((floor : ℕ) × (o ≡ some floor) × (floor ≤ entry.before) × (entry.after < floor))
breached_iff entry none = ((λ h. cc), λ (floor, e, _, _). cc e)
breached_iff entry (some floor) = (
  (λ h. let (le, lt) = (crossed_iff floor entry.before entry.after).0 h in (floor, refl, le, lt)),
  λ (floor', e, le, lt). ground (arith, e),
)

not_included :
    {A : Type 0} ⦃eq : Eq A⦄ (xs : List A) (a : A) → (not (includes xs a) ≡ true) ↔ (Memᴰ a xs → ⊥)
not_included xs a = (
  (λ h i. cc (h, includes_complete i)),
  λ h. elim (Bool-cases (includes xs a)) [
    | inl inside ↦ absurd (h (includes_sound xs a inside))
    | inr outside ↦ rw outside
  ],
)

-- A rule says something exactly when what it is about has happened.
pub evaluate_iff :
    (id : RegressionRuleId) (d : Drift) (p : MaterialityPolicy) → Says id d p ↔ Fires id d p
unfolding evaluate is_serious_new is_serious_escalation is_breached
evaluate_iff certification_lost d p = test_rule d.certification_lost _ ((λ h. h), λ h. h)
evaluate_iff serious_new_security_finding d p =
    let rule = list_rule explain_new (is_serious_new p) d.new_findings refl (λ x xs. (_, refl)) in
    (
      (λ says.
          let (f, there, serious) = rule.0 says in
          let (sensitive, severe) =
            and_true (includes p.sensitive_dimensions f.dimension) _ serious in
          (f, there, includes_sound _ _ sensitive, includes_sound _ _ severe)),
      λ (f, there, sensitive, severe).
          rule.1 (f, there, rw (includes_complete sensitive, includes_complete severe)),
    )
evaluate_iff serious_escalation d p =
    let rule =
      list_rule explain_escalated (is_serious_escalation p) d.escalated_findings refl
        (λ x xs. (_, refl)) in
    (
      (λ says.
          let (e, there, serious) = rule.0 says in
          let (now, rest) = and_true (includes p.serious_severities e.change.severity) _ serious in
          let (then_not, raised) =
            and_true (not (includes p.serious_severities e.was_severity)) _ rest in
          (
            e,
            there,
            includes_sound _ _ now,
            (not_included p.serious_severities e.was_severity).0 then_not,
            ltb→lt _ _ raised,
          )),
      λ (e, there, now, then_not, raised). rule.1 (
        e,
        there,
        rw (
          includes_complete now,
          (not_included p.serious_severities e.was_severity).1 then_not,
          lt→ltb _ _ raised,
        ),
      ),
    )
evaluate_iff score_drop d p = test_rule _ _ (fell_by_iff d.score_delta p.score_drop_points)
evaluate_iff score_below_certification_threshold d p =
    test_rule _ _ (crossed_iff p.certification_threshold d.score_before d.score_after)
evaluate_iff dimension_below_floor d p =
    let rule =
      list_rule (explain_breached p) (is_breached p) d.dimension_deltas refl (λ x xs. (_, refl)) in
    (
      (λ says.
          let (e, there, breached) = rule.0 says in
          let (floor, found, le, lt) = (breached_iff e _).0 breached in
          (e, floor, there, found, le, lt)),
      λ (e, floor, there, found, le, lt).
          rule.1 (e, there, (breached_iff e _).1 (floor, found, le, lt)),
    )
