-- ===== src/Monitoring/Schedule/Tests.antt =====
-- A certified application a month after its assessment (packages/monitoring/src/schedule.ts).
use vibefy.Prelude.{true, false, some, ◌≡◌, refl}
use vibefy.Monitoring.Schedule.{
  MonitoredPlan, cadence_for, next_reassessment_due, is_reassessment_due,
}

due_after_a_month : is_reassessment_due MonitoredPlan.certified (some 1000) 2592001000 ≡ true
unfolding is_reassessment_due next_reassessment_due cadence_for
due_after_a_month = refl

not_due_before : is_reassessment_due MonitoredPlan.certified (some 1000) 2592000999 ≡ false
unfolding is_reassessment_due next_reassessment_due cadence_for
not_due_before = refl
