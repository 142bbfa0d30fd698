-- ===== src/Billing/Entitlements/Decision.antt =====
-- When an assessment may run (`decideAssessmentRequest` of packages/billing/src/entitlements.ts).
use vibefy.Prelude.{
  ℕ, ◌≤◌, ◌<◌, Bool, true, false, not, ◌&&◌, Option, none, some, ltb, if◌then◌else◌, ◌≡◌, refl, ap,
  ◌↔◌, inl, inr, Bool-cases, arith,
}
use vibefy.Prelude.Time.{Date, add_days}
use vibefy.Billing.Entitlements.{
  Entitlement, entitlement_for, AssessmentRequestContext, next_assessment_available, available_from,
  Refusal, cooldown_active, EntitlementDecision, is_live, is_free, is_one_off, is_over, first,
  uses_credit, after_cooldown, decision, decide_assessment_request,
}

-- What the decision asks of a request, in its own terms.
pub record Permitted (c : AssessmentRequestContext) (now : Date) : Type 0 where
  pub authorised : c.app_is_authorised ≡ true
  pub paid_for :
      is_free c.plan ≡ false → is_one_off c.plan ≡ false → is_live c.subscription_status ≡ true
  pub within_limit :
      (limit : ℕ) → (entitlement_for c.plan).max_apps ≡ some limit → c.apps_in_workspace ≤ limit
  pub cooled_down :
      (days : ℕ) (last : Date)
      → (entitlement_for c.plan).cooldown_days ≡ some days
      → first c.previous_assessments ≡ some last
      → add_days last days ≤ now

limit_iff :
    (o : Option ℕ) (apps : ℕ)
    → (is_over o apps ≡ false) ↔ ((limit : ℕ) → o ≡ some limit → apps ≤ limit)
limit_iff none apps = (λ _ limit e. cc, λ _. refl)
limit_iff (some n) apps = (λ h limit e. ground arith, λ h. let le = h n refl in ground arith)

-- The cooling-off period leaves the request allowed.
cooldown_iff :
    (e : Entitlement) (o l : Option ℕ) (credit : Bool) (now : Date)
    → ((after_cooldown e (available_from o l) credit now).allowed ≡ true)
      ↔ ((days : ℕ) (last : Date) → o ≡ some days → l ≡ some last → add_days last days ≤ now)
cooldown_iff e none l credit now = (λ _ days last q r. cc q, λ _. refl)
cooldown_iff e (some d) none credit now = (λ _ days last q r. cc r, λ _. refl)
cooldown_iff e (some d) (some at) credit now =
    ((λ h days last q r. ground (arith, q, r)), λ h. let le = h d at refl refl in ground arith)

subscription_iff :
    (unpaid live once : Bool)
    → ((not unpaid && (not live && not once)) ≡ false)
      ↔ (unpaid ≡ false → once ≡ false → live ≡ true)
subscription_iff true live once = (λ _ h. cc, λ _. refl)
subscription_iff false true once = (λ _ _ _. refl, λ _. refl)
subscription_iff false false true = (λ _ _ h. cc, λ _. refl)
subscription_iff false false false = (λ h. cc, λ h. cc (h refl refl))

-- A chain of three refusals allows exactly what none of them refuses and the rest allows.
guards_iff :
    (authorised lapsed over : Bool) (d₁ d₂ d₃ rest : EntitlementDecision)
    → d₁.allowed ≡ false
    → d₂.allowed ≡ false
    → d₃.allowed ≡ false
    → ((if not authorised then d₁ else if lapsed then d₂ else if over then d₃ else rest).allowed
        ≡ true)
      ↔ ((authorised ≡ true) × (lapsed ≡ false) × (over ≡ false) × (rest.allowed ≡ true))
guards_iff false lapsed over d₁ d₂ d₃ rest p q r = (λ h. cc (h, p), λ (h, _, _, _). cc h)
guards_iff true true over d₁ d₂ d₃ rest p q r = (λ h. cc (h, q), λ (_, h, _, _). cc h)
guards_iff true false true d₁ d₂ d₃ rest p q r = (λ h. cc (h, r), λ (_, _, h, _). cc h)
guards_iff true false false d₁ d₂ d₃ rest p q r = (λ h. (refl, refl, refl, h), λ (_, _, _, h). h)

guards :
    (c : AssessmentRequestContext) (now : Date)
    → let e = entitlement_for c.plan in
      ((decide_assessment_request c now).allowed ≡ true) ↔ (
        (c.app_is_authorised ≡ true)
        × ((not (is_free c.plan)
              && (not (is_live c.subscription_status) && not (is_one_off c.plan)))
            ≡ false)
        × (is_over e.max_apps c.apps_in_workspace ≡ false)
        × ((after_cooldown e
              (available_from e.cooldown_days (first c.previous_assessments))
              (uses_credit e c.last_paid_at c.re_tests_used now)
              now).allowed
            ≡ true))
unfolding decide_assessment_request next_assessment_available
guards c now = guards_iff c.app_is_authorised _ _ _ _ _ _ refl refl refl

-- An assessment may run exactly when the application is authorised, the plan is paid for (the free
-- plan and the one-off report need no subscription), the workspace is within the plan's number of
-- applications, and the plan's waiting period since the last assessment is over.
pub allowed_iff :
    (c : AssessmentRequestContext) (now : Date)
    → ((decide_assessment_request c now).allowed ≡ true) ↔ Permitted c now
allowed_iff c now =
    let e = entitlement_for c.plan in
    let credit = uses_credit e c.last_paid_at c.re_tests_used now in
    let paid =
      subscription_iff (is_free c.plan) (is_live c.subscription_status) (is_one_off c.plan) in
    let limit = limit_iff e.max_apps c.apps_in_workspace in
    let cooled = cooldown_iff e e.cooldown_days (first c.previous_assessments) credit now in
    (
      (λ h.
          let (a, p, l, w) = (guards c now).0 h in
          record {
            authorised = a;
            paid_for = paid.0 p;
            within_limit = limit.0 l;
            cooled_down = cooled.0 w;
          }),
      λ m.
          (guards c now).1
            (m.authorised, paid.1 m.paid_for, limit.1 m.within_limit, cooled.1 m.cooled_down),
    )

-- The facts of a refusal for the waiting period.
waiting :
    (authorised lapsed over : Bool) (e : Entitlement) (o : Option Date) (credit : Bool)
    (now d : Date)
    → (if not authorised
        then decision e false false (some Refusal.not_authorised)
        else if lapsed
        then decision e false false (some Refusal.subscription_inactive)
        else if over
        then decision e false false (some Refusal.app_limit_reached)
        else after_cooldown e o credit now).refusal
      ≡ some (cooldown_active d)
    → (authorised ≡ true) × (lapsed ≡ false) × (over ≡ false) × (o ≡ some d) × (now < d)
waiting false lapsed over e o credit now d h = cc
waiting true true over e o credit now d h = cc
waiting true false true e o credit now d h = cc
waiting true false false e none credit now d h = cc
waiting true false false e (some next) credit now d h = elim (Bool-cases (ltb now next)) [
  | inl early ↦
      let same : next ≡ d = cc (rw early at h) in (refl, refl, refl, ap some same, ground arith)
  | inr late ↦ cc (rw late at h)
]

-- A request that is refused for the waiting period is told a later date, and the same request is
-- allowed from that date on.
retry_after_works :
    (c : AssessmentRequestContext) (now d later : Date)
    → (decide_assessment_request c now).refusal ≡ some (cooldown_active d)
    → d ≤ later
    → (now < d) × ((decide_assessment_request c later).allowed ≡ true)
unfolding decide_assessment_request next_assessment_available
retry_after_works c now d later h le =
    let e = entitlement_for c.plan in
    let (a, l, o, available, early) = waiting c.app_is_authorised _ _ e _ _ now d h in
    (early, (guards c later).1 (a, l, o, rw available (ground arith)))

cooldown_credit :
    (e : Entitlement) (o : Option Date) (credit : Bool) (now : Date)
    → ((after_cooldown e o credit now).uses_re_test_credit ≡ true)
      ↔ (((after_cooldown e o credit now).allowed ≡ true) × (credit ≡ true))
cooldown_credit e none credit now = (λ h. (refl, h), λ (_, h). h)
cooldown_credit e (some next) credit now = (λ h. ground arith, λ h. ground arith)

chain_credit :
    (authorised lapsed over : Bool) (e : Entitlement) (o : Option Date) (credit : Bool) (now : Date)
    → let d =
        if not authorised
        then decision e false false (some Refusal.not_authorised)
        else if lapsed
        then decision e false false (some Refusal.subscription_inactive)
        else if over
        then decision e false false (some Refusal.app_limit_reached)
        else after_cooldown e o credit now in
      (d.uses_re_test_credit ≡ true) ↔ ((d.allowed ≡ true) × (credit ≡ true))
chain_credit false lapsed over e o credit now = (λ h. cc, λ (h, _). h)
chain_credit true true over e o credit now = (λ h. cc, λ (h, _). h)
chain_credit true false true e o credit now = (λ h. cc, λ (h, _). h)
chain_credit true false false e o credit now = cooldown_credit e o credit now

-- A decision uses a re-test credit exactly when it allows the request and a credit is left.
pub uses_credit_iff :
    (c : AssessmentRequestContext) (now : Date)
    → ((decide_assessment_request c now).uses_re_test_credit ≡ true) ↔ (
        ((decide_assessment_request c now).allowed ≡ true)
        × (uses_credit (entitlement_for c.plan) c.last_paid_at c.re_tests_used now ≡ true))
unfolding decide_assessment_request
uses_credit_iff c now = chain_credit c.app_is_authorised _ _ (entitlement_for c.plan) _ _ now
