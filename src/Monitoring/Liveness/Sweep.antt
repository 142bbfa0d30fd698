-- ===== src/Monitoring/Liveness/Sweep.antt =====
-- The liveness sweep of apps/worker/src/monitoring.ts (`sweepLiveness`), from the rows that are due
-- and their probes: the update of each application and badge, and the sweep that decides nothing.
-- The two SQL updates of the badge are guarded by its status in the database, which is the status of
-- the row here, and the second one by the text of the suspension's reason.
pub mod Shared
pub mod Trace
mod Tests
use vibefy.Prelude.{
  ℕ, Bool, true, false, ◌&&◌, Option, none, some, List, [], ◌∷◌, map, if◌then◌else◌, String,
  is_empty,
}
use vibefy.Monitoring.Schedule.{MonitoredPlan, cadence_for}
use vibefy.Monitoring.Liveness.{
  LivenessOutcome, LivenessProbe, classify_probe, SharedCause, shared_cause, BadgeStatus, active,
  suspended, Reason, LivenessDecision, is_active, is_suspended, apply_probe,
}

-- Why a badge is suspended: the sweep's own sentence ('The application did not respond…'), or any
-- other reason.
pub data Suspension : Type 0 where
  did_not_respond another_reason : Suspension

pub record MonitoredApp : Type 0 where
  pub app_id : String
  pub plan : MonitoredPlan
  pub consecutive_liveness_failures : ℕ
  pub badge_status : BadgeStatus
  pub suspension_reason : Option Suspension

abbrev pub is_ours : Option Suspension → Bool
is_ours (some did_not_respond) = true
is_ours _ = false

-- `decision.reason ?? 'The application stopped responding to liveness checks.'`.
abbrev written_reason : Option Reason → Suspension
written_reason (some (Reason.did_not_respond checks error status)) = did_not_respond
written_reason _ = another_reason

-- `set status = 'suspended' … where status = 'active'`.
abbrev suspend : Bool → Option Reason → MonitoredApp → MonitoredApp
suspend wanted reason app =
    if wanted && is_active (some app.badge_status)
    then record app { badge_status = suspended; suspension_reason = some (written_reason reason) }
    else app

-- `set status = 'active' … where status = 'suspended' and suspension_reason like '…'`.
abbrev restore : Bool → MonitoredApp → MonitoredApp
restore wanted app =
    if wanted && (is_suspended (some app.badge_status) && is_ours app.suspension_reason)
    then record app { badge_status = active; suspension_reason = none }
    else app

-- The body of the loop over the probed applications, with the threshold of the plan.
pub record_probe : ℕ → MonitoredApp → LivenessProbe → MonitoredApp
record_probe threshold app probe =
    let decision =
      apply_probe
        (record {
          consecutive_failures = app.consecutive_liveness_failures;
          badge_status = some app.badge_status;
        })
        probe threshold in
    restore decision.restore_badge (
      suspend decision.suspend_badge decision.reason
        (record app { consecutive_liveness_failures = decision.consecutive_failures }))

pub record_all : List (MonitoredApp × LivenessProbe) → List MonitoredApp
record_all [] = []
record_all ((app, probe) ∷ rest) =
    record_probe (cadence_for app.plan).liveness_failures_before_suspension app probe
    ∷ record_all rest

abbrev outcome_of : Option LivenessProbe → Option LivenessOutcome
outcome_of none = none
outcome_of (some probe) = some (classify_probe probe)

-- The applications after the sweep, and why it decided nothing. The control address is asked only
-- when there is something to check.
pub sweep_liveness :
    Option LivenessProbe
    → List (MonitoredApp × LivenessProbe)
    → List MonitoredApp × Option SharedCause
sweep_liveness control probed =
    let asked = if is_empty probed then none else control in
    let cause = shared_cause (record {
      control = outcome_of asked;
      outcomes = map (λ (p : MonitoredApp × LivenessProbe). classify_probe p.1) probed;
    }) in
    elim cause [
      | some why ↦ (map (λ (p : MonitoredApp × LivenessProbe). p.0) probed, some why)
      | none ↦ (record_all probed, none)
    ]
