-- ===== src/Worker/Badges/Events.antt =====
-- The two sweeps of apps/worker/src/badge.ts over time, with what the rest of the system writes in
-- between: to the badges, the suspensions of the liveness sweep and of a re-assessment and the
-- restoring of the former (apps/worker/src/monitoring.ts), and what a reviewer decides
-- (apps/web/app/review/badge-actions.ts); to every other table, anything. Which badges a statement of
-- monitoring.ts is for is a parameter. When a badge was revoked, and why, is left out.
pub mod Stuck
use vibefy.Prelude.{ℕ, String, Bool, true, false, ◌&&◌, ◌==◌, Option, none, some, List, [], ◌∷◌}
use vibefy.Prelude.Text.{Text, codes_eq}
use vibefy.Prelude.Table.{update_where}
use vibefy.Badge.Sign.{SigningKey}
use vibefy.Monitoring.Liveness.{BadgeStatus}
use vibefy.Worker.Badges.Types.{Suspension, did_not_respond, another_reason, BadgeRow, Tables}
use vibefy.Worker.Badges.Issue.{Platform, Rules, Fresh, sweep_badge_issuance}
use vibefy.Worker.Badges.Lifecycle.{
  Moments, is_active, is_suspended, suspend, restore, sweep_badge_lifecycle,
}

-- `suspension_reason like 'The application did not respond%'`.
abbrev pub is_outage : Option Suspension → Bool
is_outage (some did_not_respond) = true
is_outage _ = false

abbrev pub may_suspend : (BadgeRow → Bool) → BadgeRow → Bool
may_suspend chosen b = chosen b && is_active b.status

abbrev pub may_recover : (BadgeRow → Bool) → BadgeRow → Bool
may_recover chosen b = chosen b && (is_suspended b.status && is_outage b.suspension_reason)

-- `revokeBadge`, `suspendBadge` and `reinstateBadge`.
pub data Decision : Type 0 where
  revokes reinstates : Decision
  suspends_for : Suspension → Decision

abbrev pub decided : Decision → ℕ → BadgeRow → BadgeRow
decided revokes now b = record b { status = BadgeStatus.revoked }
decided reinstates now b = restore b
decided (suspends_for reason) now b = suspend reason now b

abbrev pub is_named : Text → BadgeRow → Bool
is_named id b = b.public_id == id

module _ (platform : Platform) (rules : Rules) where
  -- A run of either sweep, with what is authorised at the time; a statement of monitoring.ts; a decision
  -- of a reviewer on one badge; or a write of other tables.
  pub data Event : Type 0 where
    issuance :
        (String → Bool)
        → String
        → Option (SigningKey platform.crypto)
        → (ℕ → Fresh)
        → (ℕ → ℕ)
        → Event
    lifecycle : (String → Bool) → Moments → Event
    suspends : (BadgeRow → Bool) → Suspension → ℕ → Event
    recovers : (BadgeRow → Bool) → Event
    reviews : Text → Decision → ℕ → Event
    others_write : Tables → Event

  abbrev pub step : Event → Tables → Tables
  step (issuance is_authorised licence key fresh moment) tables =
      (sweep_badge_issuance platform rules is_authorised licence key fresh moment tables).0
  step (lifecycle is_authorised at) tables = record tables {
    badges = (sweep_badge_lifecycle is_authorised tables at).0;
  }
  step (suspends chosen reason now) tables = record tables {
    badges = update_where (suspend reason now) (may_suspend chosen) tables.badges;
  }
  step (recovers chosen) tables = record tables {
    badges = update_where restore (may_recover chosen) tables.badges;
  }
  step (reviews id decision now) tables = record tables {
    badges = update_where (decided decision now) (is_named id) tables.badges;
  }
  step (others_write other) tables = record other { badges = tables.badges }

  pub run : List Event → Tables → Tables
  run [] tables = tables
  run (e ∷ es) tables = run es (step e tables)
