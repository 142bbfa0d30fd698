-- ===== src/Billing/Entitlements/Usage.antt =====
-- packages/billing/src/usage.ts: the meters that a customer reads, and that they agree with the
-- decision.
use vibefy.Prelude.{
  ℕ, zero, suc, ◌<◌, Bool, true, false, ◌&&◌, Option, none, some, List, [], ◌∷◌, Memᴰ, ltb,
  if◌then◌else◌, ◌≡◌, refl, ap, ◌↔◌, inl, inr, Bool-cases, arith,
}
use vibefy.Prelude.Time.{Date, add_days}
use vibefy.Billing.Entitlements.{
  PlanTier, Entitlement, entitlement_for, AssessmentRequestContext, re_test_window, window_from,
  is_after, uses_credit, decide_assessment_request,
}
use vibefy.Billing.Entitlements.Decision.{uses_credit_iff}

pub data MeterLabel : Type 0 where
  applications free_re_tests : MeterLabel

pub data Detail : Type 0 where
  no_limit closed not_yet_open : Detail
  on_this_plan : ℕ → Detail
  until : Option Date → ℕ → Detail

pub record UsageMeter : Type 0 where
  pub label : MeterLabel
  pub used : ℕ
  pub limit : Option ℕ
  pub detail : Detail

pub record UsageInput : Type 0 where
  pub plan : PlanTier
  pub apps_in_workspace : ℕ
  pub last_paid_assessment_at : Option Date
  pub re_tests_used : ℕ

abbrev app_detail : Option ℕ → Detail
app_detail none = no_limit
app_detail (some n) = on_this_plan n

abbrev shut_detail : Option Date → Detail
shut_detail none = not_yet_open
shut_detail (some d) = closed

pub re_test_meter : Entitlement → UsageInput → Date → UsageMeter
re_test_meter e input now =
    let window = re_test_window e input.last_paid_assessment_at in
    let in_window = is_after window now in
    record {
      label = free_re_tests;
      used = if in_window then input.re_tests_used else e.re_test_credits;
      limit = some e.re_test_credits;
      detail =
          if in_window
          then until window e.re_test_window_days
          else shut_detail input.last_paid_assessment_at;
    }

pub usage_meters : UsageInput → Date → List UsageMeter
usage_meters input now =
    let e = entitlement_for input.plan in
    record {
      label = applications;
      used = input.apps_in_workspace;
      limit = e.max_apps;
      detail = app_detail e.max_apps;
    }
    ∷ (if ltb 0 e.re_test_credits then re_test_meter e input now ∷ [] else [])

-- The meter shows a re-test that is left.
abbrev pub ShowsCredit : List UsageMeter → Type 0
ShowsCredit meters =
    (m : UsageMeter) × (limit : ℕ) × Memᴰ m meters
    × (m.label ≡ free_re_tests)
    × (m.limit ≡ some limit)
    × (m.used < limit)

meter_shows :
    (e : Entitlement) (input : UsageInput) (now : Date)
    → (uses_credit e input.last_paid_assessment_at input.re_tests_used now ≡ true)
      ↔ ((0 < e.re_test_credits) × ((re_test_meter e input now).used < e.re_test_credits))
unfolding uses_credit re_test_meter
meter_shows e input now =
    elim (Bool-cases (is_after (re_test_window e input.last_paid_assessment_at) now)) [
      | inl inside ↦ rw inside (λ h. ground arith, λ h. ground arith)
      | inr shut ↦ rw shut (λ h. ground arith, λ h. ground arith)
    ]

shows_iff :
    (some_credit : Bool) (app retest : UsageMeter) (credits : ℕ)
    → app.label ≡ applications
    → retest.label ≡ free_re_tests
    → retest.limit ≡ some credits
    → ShowsCredit (app ∷ (if some_credit then retest ∷ [] else []))
      ↔ ((some_credit ≡ true) × (retest.used < credits))
shows_iff false app retest credits a r l =
    ((λ (m, limit, i, label, _, _). only_app m i label), λ (h, _). cc h)
  where
    only_app :
        (m : UsageMeter)
        → Memᴰ m (app ∷ [])
        → m.label ≡ free_re_tests
        → (false ≡ true) × (retest.used < credits)
    only_app m (Memᴰ.head q) label = cc (a, label, ap (λ (x : UsageMeter). x.label) q)
    only_app m (Memᴰ.tail i) label = elim i [ ]
shows_iff true app retest credits a r l = (
  (λ (m, limit, i, label, lim, lt). (refl, left m limit i label lim lt)),
  λ (_, lt). (retest, credits, Memᴰ.tail (Memᴰ.head refl), r, l, lt),
)
  where
    left :
        (m : UsageMeter) (limit : ℕ)
        → Memᴰ m (app ∷ retest ∷ [])
        → m.label ≡ free_re_tests
        → m.limit ≡ some limit
        → m.used < limit
        → retest.used < credits
    left m limit (Memᴰ.head q) label lim lt = cc (a, label, ap (λ (x : UsageMeter). x.label) q)
    left m limit (Memᴰ.tail (Memᴰ.head q)) label lim lt =
        let same : limit ≡ credits = cc (lim, l, ap (λ (x : UsageMeter). x.limit) q) in
        omega (arith, same, lt, ap (λ (x : UsageMeter). x.used) q)
    left m limit (Memᴰ.tail (Memᴰ.tail i)) label lim lt = elim i [ ]

-- Where the meters are asked for the plan, the last payment and the used re-tests by which a request
-- is decided, and it is allowed, it uses a re-test credit exactly when the meter shows one that is
-- left: the two modules count a window and a credit by one rule.
pub credit_agrees_with_meter :
    (c : AssessmentRequestContext) (input : UsageInput) (now : Date)
    → input.plan ≡ c.plan
    → input.last_paid_assessment_at ≡ c.last_paid_at
    → input.re_tests_used ≡ c.re_tests_used
    → (decide_assessment_request c now).allowed ≡ true
    → ((decide_assessment_request c now).uses_re_test_credit ≡ true)
      ↔ ShowsCredit (usage_meters input now)
unfolding usage_meters
credit_agrees_with_meter c input now plan paid used allowed =
    let e = entitlement_for input.plan in
    let meter = re_test_meter e input now in
    let decided : ((decide_assessment_request c now).uses_re_test_credit ≡ true) ↔ (
        ((decide_assessment_request c now).allowed ≡ true)
        × (uses_credit e input.last_paid_assessment_at input.re_tests_used now ≡ true)) =
      rw (plan, paid, used) (uses_credit_iff c now) in
    let metered = meter_shows e input now in
    let shown =
      shows_iff (ltb 0 e.re_test_credits) _ meter e.re_test_credits refl
        (unfold re_test_meter in refl) (unfold re_test_meter in refl) in
    (
      (λ h.
          let (_, credit) = decided.0 h in
          let (some_credit, left) = metered.0 credit in shown.1 (ground arith, left)),
      λ h.
          let (some_credit, left) = shown.0 h in
          decided.1 (allowed, metered.1 (ground arith, left)),
    )

window_parts :
    (credits days used : ℕ) (o : Option Date) (now : Date)
    → (ltb 0 credits && (is_after (window_from credits days o) now && ltb used credits)) ≡ true
    → (paid : Date) × (o ≡ some paid) × (now < add_days paid days) × (used < credits)
window_parts credits days used none now h = ground arith
window_parts zero days used (some paid) now h = ground arith
window_parts (suc credits) days used (some paid) now h = (paid, refl, ground arith, ground arith)

-- A re-test credit is used only after a payment, before the plan's days since the payment have
-- passed, and while fewer re-tests than the plan includes have been taken since.
credit_window :
    (c : AssessmentRequestContext) (now : Date)
    → (decide_assessment_request c now).uses_re_test_credit ≡ true
    → let e = entitlement_for c.plan in
      (paid : Date) × (c.last_paid_at ≡ some paid)
      × (now < add_days paid e.re_test_window_days)
      × (c.re_tests_used < e.re_test_credits)
unfolding uses_credit re_test_window
credit_window c now h =
    let e = entitlement_for c.plan in
    window_parts e.re_test_credits e.re_test_window_days c.re_tests_used c.last_paid_at now
      ((uses_credit_iff c now).0 h).1
