-- ===== src/Monitoring/Schedule.antt =====
-- packages/monitoring/src/schedule.ts: how often a monitored application is looked at.
pub mod Due
mod Tests
use vibefy.Prelude.{ℕ, ◌+◌, ◌*◌, Bool, true, false, not, Option, none, some, leb, if◌then◌else◌}
use vibefy.Prelude.Time.{Date, add_days}

pub data MonitoredPlan : Type 0 where
  free one_off certified agency organisation : MonitoredPlan

pub record MonitoringCadence : Type 0 where
  pub reassess_every_days : Option ℕ
  pub liveness_every_minutes : Option ℕ
  pub liveness_failures_before_suspension : ℕ

abbrev unmonitored : MonitoringCadence
unmonitored = record {
  reassess_every_days = none;
  liveness_every_minutes = none;
  liveness_failures_before_suspension = 0;
}

abbrev every : ℕ → ℕ → MonitoringCadence
every days minutes = record {
  reassess_every_days = some days;
  liveness_every_minutes = some minutes;
  liveness_failures_before_suspension = 6;
}

-- The table `CADENCE`, read by `cadenceFor`: it has a row for each plan of the type.
unfoldable pub cadence_for : MonitoredPlan → MonitoringCadence
cadence_for free = unmonitored
cadence_for one_off = unmonitored
cadence_for certified = every 30 60
cadence_for agency = every 30 60
cadence_for organisation = every 14 30

abbrev is_some {ℓ} : {A : Type ℓ} → Option A → Bool
is_some none = false
is_some (some a) = true

unfoldable pub is_monitored : MonitoredPlan → Bool
is_monitored plan = is_some (cadence_for plan).reassess_every_days

abbrev due_after : Option ℕ → Option Date → Option Date
due_after (some days) (some last) = some (add_days last days)
due_after _ _ = none

pub next_reassessment_due : MonitoredPlan → Option Date → Option Date
next_reassessment_due plan last_assessed_at =
    due_after (cadence_for plan).reassess_every_days last_assessed_at

abbrev is_past : Option Date → Date → Bool
is_past none now = false
is_past (some due) now = leb due now

pub is_reassessment_due : MonitoredPlan → Option Date → Date → Bool
unfolding next_reassessment_due
is_reassessment_due plan last_assessed_at now =
    is_past (next_reassessment_due plan last_assessed_at) now
