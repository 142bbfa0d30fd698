-- ===== src/Monitoring/Liveness/Sweep/Trace.antt =====
-- What a series of liveness checks does to one application's badge (packages/monitoring/src/
-- liveness.ts and `sweepLiveness` of apps/worker/src/monitoring.ts).
use mathlib.Core.List.{append_assoc, append-nil}
use vibefy.Prelude.{
  ℕ, suc, ◌+◌, ◌≤◌, max, Bool, true, false, not, Option, some, List, [], ◌∷◌, ◌++◌, all,
  if◌then◌else◌, ◌≡◌, refl, sym, ap, ◌∙◌, ◌⊎◌, inl, inr, Bool-cases, arith,
}
use vibefy.Monitoring.Liveness.{
  LivenessOutcome, up, down, refused, LivenessProbe, classify_probe, is_down, BadgeStatus, active,
  suspended, apply_outcome, apply_probe,
}
use vibefy.Monitoring.Liveness.Sweep.{
  Suspension, did_not_respond, MonitoredApp, is_ours, record_probe,
}

-- The checks of one application, oldest first.
unfoldable pub record_series : ℕ → MonitoredApp → List LivenessProbe → MonitoredApp
record_series threshold app [] = app
record_series threshold app (p ∷ ps) = record_series threshold (record_probe threshold app p) ps

abbrev is_up : LivenessOutcome → Bool
is_up up = true
is_up _ = false

-- No check of the series was answered.
pub unanswered : List LivenessProbe → Bool
unanswered ps = all (λ p. not (is_up (classify_probe p))) ps

-- How many checks of the series failed; a check that was refused is not one.
pub failed : List LivenessProbe → ℕ
failed [] = 0
failed (p ∷ ps) = if is_down (classify_probe p) then suc (failed ps) else failed ps

failed-snoc :
    (ps : List LivenessProbe) (p : LivenessProbe)
    → failed (ps ++ p ∷ []) ≡ failed ps + failed (p ∷ [])
unfolding failed
failed-snoc [] p = ground arith
failed-snoc (q ∷ ps) p = ground (arith, failed-snoc ps p)

unanswered-snoc :
    (ps : List LivenessProbe) (p : LivenessProbe)
    → unanswered ps ≡ true
    → is_up (classify_probe p) ≡ false
    → unanswered (ps ++ p ∷ []) ≡ true
unfolding unanswered
unanswered-snoc [] p h e = rw e
unanswered-snoc (q ∷ ps) p h e = ground (arith, unanswered-snoc ps p)

-- The series ends in an outage with so many failed checks.
pub record Outage (history : List LivenessProbe) (failures : ℕ) : Type 0 where
  pub earlier : List LivenessProbe
  pub outage : List LivenessProbe
  pub split : history ≡ earlier ++ outage
  pub silent : unanswered outage ≡ true
  pub counted : failed outage ≡ failures

Outage-answered : (history : List LivenessProbe) (p : LivenessProbe) → Outage (history ++ p ∷ []) 0
unfolding unanswered failed
Outage-answered history p = record {
  earlier = history ++ p ∷ [];
  outage = [];
  split = sym (append-nil _);
  silent = refl;
  counted = refl;
}

Outage-silent :
    (history : List LivenessProbe) (p : LivenessProbe) (n : ℕ)
    → is_up (classify_probe p) ≡ false
    → Outage history n
    → Outage (history ++ p ∷ []) (n + failed (p ∷ []))
Outage-silent history p n e o = record {
  earlier = o.earlier;
  outage = o.outage ++ p ∷ [];
  split = ap (λ h. h ++ p ∷ []) o.split ∙ append_assoc o.earlier o.outage (p ∷ []);
  silent = unanswered-snoc o.outage p o.silent e;
  counted = omega (arith, failed-snoc o.outage p, o.counted);
}

pub is_refused : LivenessOutcome → Bool
is_refused refused = true
is_refused _ = false

-- What one check leaves of the count, by its outcome.
failures-record_probe :
    (threshold : ℕ) (app : MonitoredApp) (p : LivenessProbe)
    → (record_probe threshold app p).consecutive_liveness_failures ≡ (
        if is_up (classify_probe p) then 0 else app.consecutive_liveness_failures + failed (p ∷ []))
unfolding record_probe apply_probe apply_outcome failed
failures-record_probe threshold app p = go (classify_probe p) refl
  where
    go :
        (outcome : LivenessOutcome)
        → classify_probe p ≡ outcome
        → (record_probe threshold app p).consecutive_liveness_failures ≡ (
            if is_up (classify_probe p)
            then 0
            else app.consecutive_liveness_failures + failed (p ∷ []))
    go up e = rw e (ground arith)
    go down e = rw e (ground arith)
    go refused e = rw e (ground arith)

Outage-record_probe :
    (threshold : ℕ) (history : List LivenessProbe) (app : MonitoredApp) (p : LivenessProbe)
    → Outage history app.consecutive_liveness_failures
    → Outage (history ++ p ∷ []) (record_probe threshold app p).consecutive_liveness_failures
Outage-record_probe threshold history app p o = elim (Bool-cases (is_up (classify_probe p))) [
  | inl answered ↦ rw (failures-record_probe threshold app p, answered) (Outage-answered history p)
  | inr silent ↦
      rw (failures-record_probe threshold app p, silent)
        (Outage-silent history p app.consecutive_liveness_failures silent o)
]

-- The badge's part of `Watched`: its status, why it is suspended, and the failed checks.
abbrev Badge : ℕ → BadgeStatus → Option Suspension → ℕ → Type 0
Badge threshold status why failures =
    ((status ≡ active) ⊎ (status ≡ suspended))
    × (status ≡ suspended → (why ≡ some did_not_respond) × (max 1 threshold ≤ failures))

abbrev BadgeOf : ℕ → MonitoredApp → Type 0
BadgeOf threshold app =
    Badge threshold app.badge_status app.suspension_reason app.consecutive_liveness_failures

abbrev app_with : MonitoredApp → BadgeStatus → Option Suspension → ℕ → MonitoredApp
app_with app status why failures = record app {
  badge_status = status;
  suspension_reason = why;
  consecutive_liveness_failures = failures;
}

Badge-apply_outcome :
    (outcome : LivenessOutcome) (threshold : ℕ) (app : MonitoredApp) (p : LivenessProbe)
    (status : BadgeStatus) (why : Option Suspension) (failures : ℕ)
    → classify_probe p ≡ outcome
    → Badge threshold status why failures
    → BadgeOf threshold (record_probe threshold (app_with app status why failures) p)
      × (is_up outcome ≡ true
          → (record_probe threshold (app_with app status why failures) p).badge_status ≡ active)
unfolding record_probe apply_probe apply_outcome
Badge-apply_outcome up threshold app p active why failures e h = rw e (ground arith)
Badge-apply_outcome up threshold app p suspended why failures e h = rw e (ground arith)
Badge-apply_outcome down threshold app p active why failures e h = rw e (ground arith)
Badge-apply_outcome down threshold app p suspended why failures e h = rw e (ground arith)
Badge-apply_outcome refused threshold app p active why failures e h = rw e (ground arith)
Badge-apply_outcome refused threshold app p suspended why failures e h = rw e (ground arith)
Badge-apply_outcome _ threshold app p BadgeStatus.expired why failures e h = ground arith
Badge-apply_outcome _ threshold app p BadgeStatus.revoked why failures e h = ground arith

-- What holds of an application whose badge was active, with no failed check, before the series.
record Watched (threshold : ℕ) (history : List LivenessProbe) (app : MonitoredApp) : Type 0 where
  evidence : Outage history app.consecutive_liveness_failures
  badge : BadgeOf threshold app

Watched-record_probe :
    (threshold : ℕ) (history : List LivenessProbe) (app : MonitoredApp) (p : LivenessProbe)
    → Watched threshold history app
    → Watched threshold (history ++ p ∷ []) (record_probe threshold app p)
Watched-record_probe threshold history app p w = record {
  evidence = Outage-record_probe threshold history app p w.evidence;
  badge =
      (Badge-apply_outcome (classify_probe p) threshold app p app.badge_status app.suspension_reason
        app.consecutive_liveness_failures refl w.badge).0;
}

Watched-record_series :
    (threshold : ℕ) (history : List LivenessProbe) (app : MonitoredApp) (ps : List LivenessProbe)
    → Watched threshold history app
    → Watched threshold (history ++ ps) (record_series threshold app ps)
unfolding record_series
Watched-record_series threshold history app [] w = rw (append-nil history) w
Watched-record_series threshold history app (p ∷ ps) w = rw (← append_assoc history (p ∷ []) ps) (
    Watched-record_series threshold (history ++ p ∷ []) (record_probe threshold app p) ps
      (Watched-record_probe threshold history app p w))

Watched-start :
    (threshold : ℕ) (app : MonitoredApp)
    → app.badge_status ≡ active
    → app.consecutive_liveness_failures ≡ 0
    → Watched threshold [] app
unfolding unanswered failed
Watched-start threshold app on none_failed = record {
  evidence = record {
    earlier = [];
    outage = [];
    split = refl;
    silent = refl;
    counted = sym none_failed;
  };
  badge = (inl on, λ off. cc (on, off));
}

-- A badge that was active, with no failed check, and that a series of checks has suspended, was
-- suspended for an outage: the series ends in checks of which none was answered and of which at
-- least the plan's number failed, a check that we refused to make not counted; and it carries the
-- sweep's own reason.
pub suspended_after_outage :
    (threshold : ℕ) (app : MonitoredApp) (ps : List LivenessProbe)
    → app.badge_status ≡ active
    → app.consecutive_liveness_failures ≡ 0
    → (record_series threshold app ps).badge_status ≡ suspended
    → ((earlier outage : List LivenessProbe) × (ps ≡ earlier ++ outage)
        × (unanswered outage ≡ true)
        × (max 1 threshold ≤ failed outage))
      × ((record_series threshold app ps).suspension_reason ≡ some did_not_respond)
suspended_after_outage threshold app ps on none_failed off =
    let w =
      Watched-record_series threshold [] app ps (Watched-start threshold app on none_failed) in
    let o = w.evidence in
    let (why, enough) = w.badge.1 off in
    ((o.earlier, o.outage, o.split, o.silent, omega (arith, o.counted)), why)

-- Whatever a series of checks did to a badge that was active with no failed check, it is active after
-- the next check that is answered, and the count of failed checks is 0.
answer_restores :
    (threshold : ℕ) (app : MonitoredApp) (ps : List LivenessProbe) (p : LivenessProbe)
    → app.badge_status ≡ active
    → app.consecutive_liveness_failures ≡ 0
    → classify_probe p ≡ up
    → let after = record_probe threshold (record_series threshold app ps) p in
      (after.badge_status ≡ active) × (after.consecutive_liveness_failures ≡ 0)
answer_restores threshold app ps p on none_failed answered =
    let before = record_series threshold app ps in
    let w =
      Watched-record_series threshold [] app ps (Watched-start threshold app on none_failed) in
    (
      (Badge-apply_outcome up threshold before p before.badge_status before.suspension_reason
            before.consecutive_liveness_failures answered w.badge).1
          refl,
      failures-record_probe threshold before p ∙ rw answered,
    )

other_suspension-record_probe :
    (threshold : ℕ) (app : MonitoredApp) (p : LivenessProbe)
    → app.badge_status ≡ suspended
    → is_ours app.suspension_reason ≡ false
    → ((record_probe threshold app p).badge_status ≡ suspended)
      × ((record_probe threshold app p).suspension_reason ≡ app.suspension_reason)
unfolding record_probe apply_probe
other_suspension-record_probe threshold app p off other = ground (arith, off, other)

-- A badge that is suspended for any reason but the sweep's own stays suspended, with its reason,
-- through every series of checks.
other_suspension_stays :
    (threshold : ℕ) (app : MonitoredApp) (ps : List LivenessProbe)
    → app.badge_status ≡ suspended
    → is_ours app.suspension_reason ≡ false
    → ((record_series threshold app ps).badge_status ≡ suspended)
      × ((record_series threshold app ps).suspension_reason ≡ app.suspension_reason)
unfolding record_series
other_suspension_stays threshold app [] off other = (off, refl)
other_suspension_stays threshold app (p ∷ ps) off other =
    let (still, same) = other_suspension-record_probe threshold app p off other in
    let (end, kept) =
      other_suspension_stays threshold (record_probe threshold app p) ps still
        (ap is_ours same ∙ other) in
    (end, kept ∙ same)
