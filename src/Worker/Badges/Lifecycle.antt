-- ===== src/Worker/Badges/Lifecycle.antt =====
-- The sweep that takes badges down and puts them up again (`sweepBadgeLifecycle` of
-- apps/worker/src/badge.ts): its four statements, each at its own moment, on the tables as they stand
-- while it runs. Every badge has its application, so the join on it drops none. The notices are left
-- out.
pub mod Active
use vibefy.Prelude.{
  ℕ, String, Bool, true, false, not, ◌&&◌, Option, none, some, List, filter, any, length, leb, ltb,
  if◌then◌else◌, ◌==◌, text_eq, is_some_of,
}
use vibefy.Prelude.Table.{update_where}
use vibefy.Monitoring.Liveness.{BadgeStatus}
use vibefy.Billing.Entitlements.{SubscriptionStatus}
use vibefy.Billing.Webhooks.Types.{SubscriptionRow, InvoiceStatus, InvoiceRow}
use vibefy.Worker.Badges.Types.{Suspension, lapsed, withdrawn, BadgeRow, Tables}
use vibefy.Worker.Badges.Candidates.{is_subscribed}

abbrev pub is_active : BadgeStatus → Bool
is_active BadgeStatus.active = true
is_active _ = false

abbrev pub is_suspended : BadgeStatus → Bool
is_suspended BadgeStatus.suspended = true
is_suspended _ = false

abbrev pub is_withdrawn : Option Suspension → Bool
is_withdrawn (some withdrawn) = true
is_withdrawn _ = false

-- `b.status = 'active' and b.expires_at <= now()`.
abbrev pub is_over : ℕ → BadgeRow → Bool
is_over now b = is_active b.status && leb b.expires_at now

abbrev pub expire : BadgeRow → BadgeRow
expire b = record b { status = BadgeStatus.expired }

abbrev pub suspend : Suspension → ℕ → BadgeRow → BadgeRow
suspend reason now b = record b {
  status = BadgeStatus.suspended;
  suspended_at = some now;
  suspension_reason = some reason;
}

abbrev pub restore : BadgeRow → BadgeRow
restore b = record b { status = BadgeStatus.active; suspended_at = none; suspension_reason = none }

-- `status in ('past_due', 'cancelled', 'paused')`.
abbrev pub has_stopped : SubscriptionStatus → Bool
has_stopped SubscriptionStatus.past_due = true
has_stopped SubscriptionStatus.cancelled = true
has_stopped SubscriptionStatus.paused = true
has_stopped _ = false

abbrev is_paid : InvoiceStatus → Bool
is_paid InvoiceStatus.paid = true
is_paid _ = false

abbrev pub still_paid : String → InvoiceRow → Bool
still_paid app i =
    is_some_of i.app_id app && (is_paid i.status && ltb i.amount_refunded_cents i.amount_paid_cents)

abbrev pub stopped_for : String → SubscriptionRow → Bool
stopped_for organisation s = (s.organisation_id == organisation) && has_stopped s.status

pub record LifecycleResult : Type 0 where
  pub expired : ℕ
  pub suspended : ℕ
  pub unauthorised : ℕ
  pub reauthorised : ℕ

-- The moments of the four statements.
pub record Moments : Type 0 where
  pub expiry : ℕ
  pub lapse : ℕ
  pub withdrawal : ℕ
  pub return : ℕ

module _ (is_authorised : String → Bool) (tables : Tables) where
  -- A subscription that has stopped, none in force, and no invoice for the application that is paid.
  abbrev pub is_unpaid : BadgeRow → Bool
  is_unpaid b =
      any (stopped_for b.organisation_id) tables.subscriptions
      && (not (any (is_subscribed b.organisation_id) tables.subscriptions)
          && not (any (still_paid b.app_id) tables.invoices))

  abbrev pub is_lapsed : BadgeRow → Bool
  is_lapsed b = is_active b.status && is_unpaid b

  abbrev pub is_unauthorised : BadgeRow → Bool
  is_unauthorised b = is_active b.status && not (is_authorised b.app_id)

  abbrev pub may_return : ℕ → BadgeRow → Bool
  may_return now b =
      is_suspended b.status
      && (is_withdrawn b.suspension_reason && (ltb now b.expires_at && is_authorised b.app_id))

  pub sweep_badge_lifecycle : Moments → List BadgeRow × LifecycleResult
  sweep_badge_lifecycle at =
      let first = tables.badges in
      let second = update_where expire (is_over at.expiry) first in
      let third = update_where (suspend lapsed at.lapse) is_lapsed second in
      let fourth = update_where (suspend withdrawn at.withdrawal) is_unauthorised third in
      (
        update_where restore (may_return at.return) fourth,
        record {
          expired = length (filter (is_over at.expiry) first);
          suspended = length (filter is_lapsed second);
          unauthorised = length (filter is_unauthorised third);
          reauthorised = length (filter (may_return at.return) fourth);
        },
      )
