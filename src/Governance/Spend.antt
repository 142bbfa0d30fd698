-- ===== src/Governance/Spend.antt =====
-- packages/governance/src/spend.ts: what today's spending calls for. Amounts are in cents; a figure
-- that is not finite, such as NaN, is `unreadable`. The sentence of an action is left out.
pub mod Ceilings
mod Tests
use vibefy.Prelude.{
  ℕ, ◌+◌, ◌-◌, ◌*◌, ◌%◌, Bool, true, false, not, ◌&&◌, ◌||◌, List, [], ◌∷◌, ◌++◌, leb, ltb,
  if◌then◌else◌,
}
use vibefy.Prelude.Time.{Date, day_ms}

pub record SpendCeilings : Type 0 where
  pub global_daily : ℕ
  pub free_tier_weekly_alert : ℕ
  pub free_tier_per_account_monthly : ℕ

-- `CEILINGS`, from config/pricing.json.
abbrev pub ceilings : SpendCeilings
ceilings = record {
  global_daily = 20000;
  free_tier_weekly_alert = 10000;
  free_tier_per_account_monthly = 200;
}

pub data Figure : Type 0 where
  unreadable : Figure
  cents : ℕ → Figure

pub record SpendObservation : Type 0 where
  pub today : Figure
  pub free_tier_this_week : Figure
  pub already_paused : Bool

pub data SpendActionKind : Type 0 where
  pause alert : SpendActionKind

pub data SpendTrigger : Type 0 where
  daily_ceiling daily_warning free_tier_weekly spend_unreadable : SpendTrigger

pub record SpendAction : Type 0 where
  pub kind : SpendActionKind
  pub trigger : SpendTrigger
  pub observed : ℕ
  pub ceiling : ℕ

abbrev action : SpendActionKind → SpendTrigger → ℕ → ℕ → SpendAction
action kind trigger observed ceiling = record {
  kind = kind;
  trigger = trigger;
  observed = observed;
  ceiling = ceiling;
}

abbrev pub when : Bool → SpendAction → List SpendAction
when test a = if test then a ∷ [] else []

-- The comparisons, with both figures read. `globalDailyUsd * 0.8` is four fifths, here exactly.
pub compare_spend : ℕ → ℕ → Bool → SpendCeilings → List SpendAction
compare_spend today week paused c =
    when (not paused && leb c.global_daily today) (action pause daily_ceiling today c.global_daily)
    ++ when (not paused && (leb (c.global_daily * 4) (today * 5) && ltb today c.global_daily))
        (action alert daily_warning today c.global_daily)
    ++ when (leb c.free_tier_weekly_alert week)
        (action alert free_tier_weekly week c.free_tier_weekly_alert)

abbrev not_measured : SpendCeilings → List SpendAction
not_measured c = action alert spend_unreadable 0 c.global_daily ∷ []

abbrev evaluate_figures : Figure → Figure → Bool → SpendCeilings → List SpendAction
evaluate_figures unreadable _ paused c = not_measured c
evaluate_figures (cents today) unreadable paused c = not_measured c
evaluate_figures (cents today) (cents week) paused c = compare_spend today week paused c

pub evaluate_spend : SpendObservation → SpendCeilings → List SpendAction
evaluate_spend o c = evaluate_figures o.today o.free_tier_this_week o.already_paused c

-- Midnight UTC, and seven days before it. A day of UTC has 24 hours.
pub record SpendWindows : Type 0 where
  pub day_start : Date
  pub week_start : Date

pub spend_windows : Date → SpendWindows
spend_windows now =
    let midnight = now - now % day_ms in
    record { day_start = midnight; week_start = midnight - 7 * day_ms }
