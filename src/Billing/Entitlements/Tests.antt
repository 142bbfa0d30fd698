-- ===== src/Billing/Entitlements/Tests.antt =====
-- A one-off report, its re-test and a free plan (packages/billing/src/entitlements.ts).
use vibefy.Prelude.{true, none, some, [], ◌∷◌, Memᴰ, mem_cons_elim, ◌≡◌, ◌≢◌, ◌↔◌, refl}
use vibefy.Prelude.Sort.{sort}
use vibefy.Billing.Entitlements.{
  PlanTier, entitlement_for, SubscriptionStatus, AssessmentRequestContext, cooldown_active,
  decide_assessment_request, next_assessment_available, uses_credit, re_test_window,
}
use vibefy.Billing.Entitlements.Decision.{Permitted, allowed_iff}
use vibefy.Billing.Entitlements.Usage.{
  ShowsCredit, usage_meters, UsageInput, credit_agrees_with_meter,
}
use vibefy.Billing.Entitlements.Plan.{
  Subscription, Invoice, PaidFor, plan_for, app_has_paid_report, in_force, live_of,
  invoice_still_paid, plan_for-PaidFor,
}

abbrev bought : AssessmentRequestContext
bought = record {
  plan = PlanTier.one_off;
  subscription_status = none;
  apps_in_workspace = 7;
  previous_assessments = 1000 ∷ [];
  last_paid_at = some 900;
  re_tests_used = 0;
  app_is_authorised = true;
}

abbrev on_free_plan : AssessmentRequestContext
on_free_plan = record bought { plan = PlanTier.free; apps_in_workspace = 2; last_paid_at = none }

bought_allowed : (decide_assessment_request bought 2000).allowed ≡ true
unfolding decide_assessment_request next_assessment_available entitlement_for
bought_allowed = refl

bought_credit : (decide_assessment_request bought 2000).uses_re_test_credit ≡ true
unfolding decide_assessment_request next_assessment_available entitlement_for uses_credit
    re_test_window
bought_credit = refl

free_waits :
    (decide_assessment_request on_free_plan 2000).refusal ≡ some (cooldown_active 7776001000)
unfolding decide_assessment_request next_assessment_available entitlement_for
free_waits = refl

allowed_iff_example :
    ((decide_assessment_request bought 2000).allowed ≡ true) ↔ Permitted bought 2000
allowed_iff_example = allowed_iff bought 2000

abbrev shown : UsageInput
shown = record {
  plan = bought.plan;
  apps_in_workspace = 1;
  last_paid_assessment_at = bought.last_paid_at;
  re_tests_used = bought.re_tests_used;
}

credit_agrees_with_meter_example :
    ((decide_assessment_request bought 2000).uses_re_test_credit ≡ true)
    ↔ ShowsCredit (usage_meters shown 2000)
credit_agrees_with_meter_example =
    credit_agrees_with_meter bought shown 2000 refl refl refl bought_allowed

abbrev agency : Subscription
agency = record { plan = PlanTier.agency; status = SubscriptionStatus.active }

abbrev lapsed : Subscription
lapsed = record { plan = PlanTier.organisation; status = SubscriptionStatus.cancelled }

abbrev kept_invoice : Invoice
kept_invoice = record {
  status = some "paid";
  amount_paid_cents = some 7900;
  amount_refunded_cents = some 1000;
}

abbrev refunded_invoice : Invoice
refunded_invoice = record kept_invoice { amount_refunded_cents = some 7900 }

report_plan :
    (plan_for (lapsed ∷ []) (app_has_paid_report (refunded_invoice ∷ kept_invoice ∷ []))).plan
    ≡ PlanTier.one_off
unfolding plan_for app_has_paid_report live_of invoice_still_paid sort
report_plan = refl

not_free : PlanTier.one_off ≢ PlanTier.free
not_free h = cc h

plan_for-PaidFor_example :
    let invoices = refunded_invoice ∷ kept_invoice ∷ [] in
    PaidFor (lapsed ∷ []) invoices (plan_for (lapsed ∷ []) (app_has_paid_report invoices)).plan
plan_for-PaidFor_example =
    plan_for-PaidFor (lapsed ∷ []) (refunded_invoice ∷ kept_invoice ∷ []) (rw report_plan not_free)

only_agency :
    (t : Subscription) → Memᴰ t (lapsed ∷ agency ∷ []) → in_force t.status ≡ true → t ≡ agency
only_agency =
    mem_cons_elim (λ (t : Subscription). in_force t.status ≡ true → t ≡ agency) (λ h. cc)
      (mem_cons_elim (λ (t : Subscription). in_force t.status ≡ true → t ≡ agency) (λ h. refl)
        (λ t i. elim i [ ]))
