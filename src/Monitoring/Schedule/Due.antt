-- ===== src/Monitoring/Schedule/Due.antt =====
-- When a re-assessment is due (packages/monitoring/src/schedule.ts).
use vibefy.Prelude.{ℕ, ◌≤◌, ◌<◌, true, Option, none, some, ◌≡◌, refl, ◌↔◌, le→leb, arith}
use vibefy.Prelude.Time.{Date, add_days}
use vibefy.Monitoring.Schedule.{
  MonitoredPlan, due_after, is_past, cadence_for, is_monitored, is_reassessment_due,
}

due_parts :
    (o : Option ℕ) (l : Option Date) (now : Date)
    → is_past (due_after o l) now ≡ true
    → (days : ℕ) × (at : Date) × (o ≡ some days) × (l ≡ some at) × (add_days at days ≤ now)
due_parts none l now h = cc
due_parts (some days) none now h = cc
due_parts (some days) (some at) now h = (days, at, refl, refl, ground arith)

monitored_parts :
    (plan : MonitoredPlan)
    → is_monitored plan ≡ true
    → ((minutes : ℕ) × ((cadence_for plan).liveness_every_minutes ≡ some minutes))
      × (1 < (cadence_for plan).liveness_failures_before_suspension)
unfolding is_monitored cadence_for
monitored_parts MonitoredPlan.certified h = ((60, refl), omega arith)
monitored_parts MonitoredPlan.agency h = ((60, refl), omega arith)
monitored_parts MonitoredPlan.organisation h = ((30, refl), omega arith)
monitored_parts MonitoredPlan.free h = cc
monitored_parts MonitoredPlan.one_off h = cc

-- A re-assessment is due exactly when the plan is monitored, there was an assessment before, and the
-- days that the plan waits have passed since; a plan that is monitored also has a liveness interval
-- and takes more than one failed check to suspend a badge.
pub is_reassessment_due_iff :
    (plan : MonitoredPlan) (last : Option Date) (now : Date)
    → ((is_reassessment_due plan last now ≡ true) ↔ (
        (days : ℕ) × (at : Date) × ((cadence_for plan).reassess_every_days ≡ some days)
        × (last ≡ some at)
        × (add_days at days ≤ now)))
      × (is_monitored plan ≡ true
          → ((minutes : ℕ) × ((cadence_for plan).liveness_every_minutes ≡ some minutes))
            × (1 < (cadence_for plan).liveness_failures_before_suspension))
unfolding is_reassessment_due
is_reassessment_due_iff plan last now = (
  (
    due_parts (cadence_for plan).reassess_every_days last now,
    λ (days, at, e, l, h). rw (e, l) (le→leb _ _ h),
  ),
  monitored_parts plan,
)
