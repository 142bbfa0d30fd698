-- ===== src/Monitoring/Liveness/Sweep/Tests.antt =====
-- Series of checks and a sweep, run (apps/worker/src/monitoring.ts).
use vibefy.Prelude.{◌≤◌, max, true, none, some, List, [], ◌∷◌, ◌++◌, ◌≡◌, refl}
use vibefy.Monitoring.Schedule.{MonitoredPlan}
use vibefy.Monitoring.Liveness.{
  LivenessProbe, classify_probe, active, suspended, apply_outcome, apply_probe,
}
use vibefy.Monitoring.Liveness.Sweep.{did_not_respond, another_reason, MonitoredApp, record_probe}
use vibefy.Monitoring.Liveness.Sweep.Trace.{
  record_series, unanswered, failed, suspended_after_outage,
}

abbrev silence : LivenessProbe
silence = record { status = none; error = some "connect timed out"; refused_reason = none }

abbrev answer : LivenessProbe
answer = record { status = some 200; error = none; refused_reason = none }

abbrev refusal : LivenessProbe
refusal = record { status = none; error = none; refused_reason = some "target is paused" }

abbrev shop : MonitoredApp
shop = record {
  app_id = "shop";
  plan = MonitoredPlan.certified;
  consecutive_liveness_failures = 0;
  badge_status = active;
  suspension_reason = none;
}

abbrev frozen : MonitoredApp
frozen = record shop { badge_status = suspended; suspension_reason = some another_reason }

abbrev outage_series : List LivenessProbe
outage_series = silence ∷ answer ∷ silence ∷ refusal ∷ silence ∷ []

outage_suspends : (record_series 2 shop outage_series).badge_status ≡ suspended
unfolding record_series record_probe apply_probe apply_outcome classify_probe
outage_suspends = refl

suspended_after_outage_example :
    ((earlier outage : List LivenessProbe) × (outage_series ≡ earlier ++ outage)
      × (unanswered outage ≡ true)
      × (max 1 2 ≤ failed outage))
    × ((record_series 2 shop outage_series).suspension_reason ≡ some did_not_respond)
suspended_after_outage_example =
    suspended_after_outage 2 shop outage_series refl refl outage_suspends

abbrev all_silent : List (MonitoredApp × LivenessProbe)
all_silent = (shop, silence) ∷ (frozen, silence) ∷ []
