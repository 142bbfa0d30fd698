-- ===== src/Billing/Entitlements.antt =====
-- packages/billing/src/entitlements.ts: the table of the plans, and whether an assessment may run.
-- The cost ceilings come from config/pricing.json, in cents. The messages of a refusal are left out;
-- its code and the date that it quotes are kept.
pub mod Decision
pub mod Usage
pub mod Plan
mod Tests
use vibefy.Prelude.{
  ℕ, zero, suc, ◌+◌, ◌*◌, String, Bool, true, false, not, ◌&&◌, ◌||◌, Option, none, some, List, [],
  ◌∷◌, ltb, leb, if◌then◌else◌,
}
use vibefy.Prelude.Time.{Date, add_days}

pub data PlanTier : Type 0 where
  free one_off certified agency organisation : PlanTier

pub data AssessmentDepth : Type 0 where
  limited full continuous : AssessmentDepth

pub data ReportTier : Type 0 where
  free_report paid_report : ReportTier

pub record Entitlement : Type 0 where
  pub plan : PlanTier
  pub depth : AssessmentDepth
  pub report_tier : ReportTier
  pub pdf_export : Bool
  pub evidence_artefacts : Bool
  pub badge_eligible : Bool
  pub cooldown_days : Option ℕ
  pub re_test_credits : ℕ
  pub re_test_window_days : ℕ
  pub max_apps : Option ℕ
  pub max_run_cost_cents : ℕ

-- `perRunCostUsd` of config/pricing.json.
abbrev ceilings : AssessmentDepth → ℕ
ceilings limited = 100
ceilings full = 400
ceilings continuous = 200

abbrev subscription : PlanTier → ℕ → Entitlement
subscription plan credits = record {
  plan = plan;
  depth = continuous;
  report_tier = paid_report;
  pdf_export = true;
  evidence_artefacts = true;
  badge_eligible = true;
  cooldown_days = none;
  re_test_credits = credits;
  re_test_window_days = 30;
  max_apps = none;
  max_run_cost_cents = ceilings continuous;
}

-- The table `ENTITLEMENTS`, read by `entitlementFor`: it has a row for each plan of the type, so the
-- throw is not reached.
unfoldable pub entitlement_for : PlanTier → Entitlement
entitlement_for free = record {
  plan = free;
  depth = limited;
  report_tier = free_report;
  pdf_export = false;
  evidence_artefacts = false;
  badge_eligible = false;
  cooldown_days = some 90;
  re_test_credits = 0;
  re_test_window_days = 0;
  max_apps = some 3;
  max_run_cost_cents = ceilings limited;
}
entitlement_for one_off = record {
  plan = one_off;
  depth = full;
  report_tier = paid_report;
  pdf_export = true;
  evidence_artefacts = true;
  badge_eligible = true;
  cooldown_days = none;
  re_test_credits = 1;
  re_test_window_days = 30;
  max_apps = none;
  max_run_cost_cents = ceilings full;
}
entitlement_for certified = subscription certified 2
entitlement_for agency = subscription agency 4
entitlement_for organisation = subscription organisation 8

pub data SubscriptionStatus : Type 0 where
  trialing active past_due paused cancelled incomplete : SubscriptionStatus

pub record AssessmentRequestContext : Type 0 where
  pub plan : PlanTier
  pub subscription_status : Option SubscriptionStatus
  pub apps_in_workspace : ℕ
  pub previous_assessments : List Date
  pub last_paid_at : Option Date
  pub re_tests_used : ℕ
  pub app_is_authorised : Bool

-- `!lastPaidAt || reTestCredits === 0`.
abbrev window_from : ℕ → ℕ → Option Date → Option Date
window_from credits days none = none
window_from zero days (some paid) = none
window_from (suc credits) days (some paid) = some (add_days paid days)

pub re_test_window : Entitlement → Option Date → Option Date
re_test_window e last_paid_at = window_from e.re_test_credits e.re_test_window_days last_paid_at

abbrev available_from : Option ℕ → Option Date → Option Date
available_from (some days) (some last) = some (add_days last days)
available_from _ _ = none

pub next_assessment_available : PlanTier → Option Date → Option Date
next_assessment_available plan last_completed_at =
    available_from (entitlement_for plan).cooldown_days last_completed_at

-- The refusals, with the date after which to ask again.
pub data Refusal : Type 0 where
  not_authorised subscription_inactive app_limit_reached : Refusal
  cooldown_active : Date → Refusal

pub record EntitlementDecision : Type 0 where
  pub allowed : Bool
  pub depth : AssessmentDepth
  pub report_tier : ReportTier
  pub max_run_cost_cents : ℕ
  pub uses_re_test_credit : Bool
  pub refusal : Option Refusal

abbrev pub decision : Entitlement → Bool → Bool → Option Refusal → EntitlementDecision
decision e allowed uses_credit refusal = record {
  allowed = allowed;
  depth = e.depth;
  report_tier = e.report_tier;
  max_run_cost_cents = e.max_run_cost_cents;
  uses_re_test_credit = uses_credit;
  refusal = refusal;
}

abbrev pub is_live : Option SubscriptionStatus → Bool
is_live (some active) = true
is_live (some trialing) = true
is_live _ = false

abbrev pub is_free : PlanTier → Bool
is_free free = true
is_free _ = false

abbrev pub is_one_off : PlanTier → Bool
is_one_off one_off = true
is_one_off _ = false

abbrev is_over : Option ℕ → ℕ → Bool
is_over none apps = false
is_over (some limit) apps = ltb limit apps

abbrev pub first : List Date → Option Date
first [] = none
first (d ∷ ds) = some d

-- `window && window > now`.
abbrev pub is_after : Option Date → Date → Bool
is_after none now = false
is_after (some d) now = ltb now d

-- The re-test credit, the last step of the decision.
pub uses_credit : Entitlement → Option Date → ℕ → Date → Bool
uses_credit e last_paid_at used now =
    ltb 0 e.re_test_credits
    && (is_after (re_test_window e last_paid_at) now && ltb used e.re_test_credits)

abbrev after_cooldown : Entitlement → Option Date → Bool → Date → EntitlementDecision
after_cooldown e none credit now = decision e true credit none
after_cooldown e (some next) credit now =
    if ltb now next
    then decision e false false (some (cooldown_active next))
    else decision e true credit none

pub decide_assessment_request : AssessmentRequestContext → Date → EntitlementDecision
decide_assessment_request context now =
    let e = entitlement_for context.plan in
    if not context.app_is_authorised
    then decision e false false (some not_authorised)
    else if not (is_free context.plan)
        && (not (is_live context.subscription_status) && not (is_one_off context.plan))
    then decision e false false (some subscription_inactive)
    else if is_over e.max_apps context.apps_in_workspace
    then decision e false false (some app_limit_reached)
    else after_cooldown e
        (next_assessment_available context.plan (first context.previous_assessments))
        (uses_credit e context.last_paid_at context.re_tests_used now) now
