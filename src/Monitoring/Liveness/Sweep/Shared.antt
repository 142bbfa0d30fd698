-- ===== src/Monitoring/Liveness/Sweep/Shared.antt =====
-- When a sweep of the liveness checks decides nothing (apps/worker/src/monitoring.ts).
use vibefy.Prelude.{
  suc, ap, ◌≤◌, true, none, some, List, [], ◌∷◌, map, all, length, ◌≡◌, ◌≢◌, refl, ◌⊎◌, arith,
}
use vibefy.Monitoring.Liveness.{down, LivenessProbe, classify_probe, is_down, shared_cause}
use vibefy.Monitoring.Liveness.Sweep.{MonitoredApp, sweep_liveness}

length-map {ℓ κ} :
    {A : Type ℓ} {B : Type κ} (f : A → B) (xs : List A) → length (map f xs) ≡ length xs
length-map f [] = refl
length-map f (x ∷ xs) = ap suc (length-map f xs)

-- If at least three applications were checked and not one of the checks is an answer or a refusal, or
-- if the control address was down, then the sweep names a shared cause and leaves every application
-- as it was.
shared_cause_decides_nothing :
    (control : LivenessProbe) (first : MonitoredApp × LivenessProbe)
    (rest : List (MonitoredApp × LivenessProbe))
    → (classify_probe control ≡ down)
      ⊎ ((3 ≤ length (first ∷ rest))
          × (all is_down
                (map (λ (p : MonitoredApp × LivenessProbe). classify_probe p.1) (first ∷ rest))
              ≡ true))
    → ((sweep_liveness (some control) (first ∷ rest)).0
        ≡ map (λ (p : MonitoredApp × LivenessProbe). p.0) (first ∷ rest))
      × ((sweep_liveness (some control) (first ∷ rest)).1 ≢ none)
unfolding sweep_liveness shared_cause
shared_cause_decides_nothing control first rest h =
    ground (arith, length-map (λ (p : MonitoredApp × LivenessProbe). classify_probe p.1) rest)
