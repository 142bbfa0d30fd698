-- ===== src/Monitoring/Liveness.antt =====
-- packages/monitoring/src/liveness.ts: what a failed check means.
pub mod Sweep
use vibefy.Prelude.{
  ℕ, suc, ◌+◌, max, String, Bool, true, false, not, ◌&&◌, ◌||◌, Option, none, some, List, [], ◌∷◌,
  all, length, leb, if◌then◌else◌, ◌==◌, Eq, enum_eq, ◌≡◌, arith,
}

pub data LivenessOutcome : Type 0 where
  up down refused : LivenessOutcome

-- `refused_reason` is `none` also where the code has an empty text, which is falsy.
pub record LivenessProbe : Type 0 where
  pub status : Option ℕ
  pub error : Option String
  pub refused_reason : Option String

abbrev classify_status : Option ℕ → LivenessOutcome
classify_status none = down
classify_status (some status) = if leb 500 status then down else up

abbrev classify : Option String → Option ℕ → LivenessOutcome
classify (some reason) status = refused
classify none status = classify_status status

pub classify_probe : LivenessProbe → LivenessOutcome
classify_probe probe = classify probe.refused_reason probe.status

abbrev pub shared_cause_minimum : ℕ
shared_cause_minimum = 3

pub record SweepEvidence : Type 0 where
  pub control : Option LivenessOutcome
  pub outcomes : List LivenessOutcome

-- The two sentences, the second with how many applications were checked.
pub data SharedCause : Type 0 where
  control_silent : SharedCause
  all_failed : ℕ → SharedCause

abbrev pub is_down : LivenessOutcome → Bool
is_down down = true
is_down _ = false

abbrev control_is_down : Option LivenessOutcome → Bool
control_is_down none = false
control_is_down (some outcome) = is_down outcome

pub shared_cause : SweepEvidence → Option SharedCause
shared_cause evidence =
    let checked = length evidence.outcomes in
    if control_is_down evidence.control
    then some control_silent
    else if leb shared_cause_minimum checked && all is_down evidence.outcomes
    then some (all_failed checked)
    else none

pub data BadgeStatus : Type 0 where
  active suspended expired revoked : BadgeStatus

pub record LivenessState : Type 0 where
  pub consecutive_failures : ℕ
  pub badge_status : Option BadgeStatus

-- The sentence of a decision: our own reason for a refusal, or how many checks failed, with what the
-- last of them said.
pub data Reason : Type 0 where
  not_made : String → Reason
  did_not_respond : ℕ → Option String → Option ℕ → Reason

pub record LivenessDecision : Type 0 where
  pub outcome : LivenessOutcome
  pub consecutive_failures : ℕ
  pub suspend_badge : Bool
  pub restore_badge : Bool
  pub reason : Option Reason

abbrev pub is_active : Option BadgeStatus → Bool
is_active (some active) = true
is_active _ = false

abbrev pub is_suspended : Option BadgeStatus → Bool
is_suspended (some suspended) = true
is_suspended _ = false

abbrev reason_or_default : Option String → String
reason_or_default none = "The check was not made."
reason_or_default (some reason) = reason

-- `applyProbe` after the outcome is known.
apply_outcome : LivenessOutcome → LivenessState → LivenessProbe → ℕ → LivenessDecision
apply_outcome refused state probe failures_before_suspension = record {
  outcome = refused;
  consecutive_failures = state.consecutive_failures;
  suspend_badge = false;
  restore_badge = false;
  reason = some (not_made (reason_or_default probe.refused_reason));
}
apply_outcome up state probe failures_before_suspension = record {
  outcome = up;
  consecutive_failures = 0;
  suspend_badge = false;
  restore_badge =
      is_suspended state.badge_status && leb failures_before_suspension state.consecutive_failures;
  reason = none;
}
apply_outcome down state probe failures_before_suspension =
    let failures = state.consecutive_failures + 1 in
    let crossed = leb (max 1 failures_before_suspension) failures in
    record {
      outcome = down;
      consecutive_failures = failures;
      suspend_badge = crossed && is_active state.badge_status;
      restore_badge = false;
      reason = if crossed then some (did_not_respond failures probe.error probe.status) else none;
    }

pub apply_probe : LivenessState → LivenessProbe → ℕ → LivenessDecision
unfolding apply_outcome
apply_probe state probe failures_before_suspension =
    apply_outcome (classify_probe probe) state probe failures_before_suspension
