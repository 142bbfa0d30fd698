-- ===== src/Governance/Requests/Moves.antt =====
-- The moves of a request (packages/governance/src/requests.ts). The statement that moves a row names
-- the statuses it may be in, and an illegal move matches no row (`resolveDataRequest` of
-- apps/web/app/console/privacy/actions.ts).
use vibefy.Prelude.{
  ℕ, suc, ◌+◌, ◌≤◌, ◌<◌, true, false, Memᴰ, includes, includes_sound, includes_complete,
  mem_filter→, mem_filter←, if◌then◌else◌, ◌≡◌, ◌≢◌, refl, sym, ap, ◌↔◌, inl, inr, Bool-cases,
  arith,
}
use vibefy.Governance.Requests.{
  RequestStatus, received, verifying, in_progress, completed, refused, status_eq, is_closed,
  transitions, can_transition, statuses, statuses_that_may_become,
}

-- One update of the row: the target is set where the row's status is one that may become it.
pub resolve : RequestStatus → RequestStatus → RequestStatus
resolve row target = if includes (statuses_that_may_become target) row then target else row

-- A request after a number of updates that changed it.
pub data Moves : RequestStatus → RequestStatus → ℕ → Type 0 where
  start : {s : RequestStatus} → Moves s s 0
  move :
      {s t u : RequestStatus} {n : ℕ} → Moves s t n → can_transition t u ≡ true → Moves s u (suc n)

listed : (s : RequestStatus) → Memᴰ s statuses
listed received = Memᴰ.head refl
listed verifying = Memᴰ.tail (Memᴰ.head refl)
listed in_progress = Memᴰ.tail (Memᴰ.tail (Memᴰ.head refl))
listed completed = Memᴰ.tail (Memᴰ.tail (Memᴰ.tail (Memᴰ.head refl)))
listed refused = Memᴰ.tail (Memᴰ.tail (Memᴰ.tail (Memᴰ.tail (Memᴰ.head refl))))

may_become_iff :
    (from to : RequestStatus)
    → Memᴰ from (statuses_that_may_become to) ↔ (can_transition from to ≡ true)
unfolding statuses_that_may_become
may_become_iff from to = (
  λ i. (mem_filter→ (λ f. can_transition f to) statuses i).1,
  λ h. mem_filter← (λ f. can_transition f to) (listed from) h,
)

-- An update changes the row to its target exactly when the table allows the move; otherwise it
-- leaves the row as it was. The statuses named are those and only those from which the move is legal.
resolve_follows_table :
    (row target : RequestStatus)
    → (Memᴰ row (statuses_that_may_become target) ↔ (can_transition row target ≡ true))
      × ((can_transition row target ≡ true → resolve row target ≡ target)
          × (can_transition row target ≡ false → resolve row target ≡ row))
unfolding resolve
resolve_follows_table row target = (
  may_become_iff row target,
  (
    λ h. rw (includes_complete ((may_become_iff row target).1 h)),
    λ h. elim (Bool-cases (includes (statuses_that_may_become target) row)) [
      | inl inside ↦ cc (h, (may_become_iff row target).0 (includes_sound _ _ inside))
      | inr outside ↦ rw outside
    ],
  ),
)

-- How far a request has come.
abbrev stage : RequestStatus → ℕ
stage received = 0
stage verifying = 1
stage in_progress = 2
stage completed = 3
stage refused = 3

stage-can_transition : (s t : RequestStatus) → can_transition s t ≡ true → stage s < stage t
unfolding can_transition transitions
stage-can_transition s t h = ground arith

stage-Moves : {s t : RequestStatus} {n : ℕ} → Moves s t n → stage s + n ≤ stage t
stage-Moves start = omega arith
stage-Moves (move {t = t} {u = u} m h) =
    let le = stage-Moves m in let lt = stage-can_transition t u h in omega arith

stage_bound : (s : RequestStatus) → stage s ≤ 3
stage_bound s = ground arith

-- However a request is moved, it moves at most three times, and it never comes back to a status that
-- it had.
Moves-end : {s t : RequestStatus} {n : ℕ} → Moves s t n → (n ≤ 3) × (0 < n → s ≢ t)
Moves-end {s} {t} {n} m =
    let le = stage-Moves m in
    let bound = stage_bound t in (omega arith, λ pos same. let e = ap stage same in omega arith)

closed_stage : (s : RequestStatus) → is_closed s ≡ true → stage s ≡ 3
closed_stage s h = ground arith

before_completed : (t : RequestStatus) → can_transition t completed ≡ true → t ≡ in_progress
unfolding can_transition transitions
before_completed t h = ground arith

-- A closed request is never moved again, and one that was completed was in progress before.
closed_is_final :
    {s t : RequestStatus} {n : ℕ}
    → Moves s t n
    → (is_closed s ≡ true → (n ≡ 0) × (s ≡ t))
      × (t ≡ completed → s ≢ completed → (k : ℕ) × Moves s in_progress k × (n ≡ suc k))
closed_is_final m = (final m, through m)
  where
    final : {s t : RequestStatus} {n : ℕ} → Moves s t n → is_closed s ≡ true → (n ≡ 0) × (s ≡ t)
    final start h = (refl, refl)
    final {s} {t} {n} (move {t = r} k step) h =
        let le = stage-Moves (move k step) in
        let closed = closed_stage s h in let bound = stage_bound t in absurd (omega arith)

    through :
        {s t : RequestStatus} {n : ℕ}
        → Moves s t n
        → t ≡ completed
        → s ≢ completed
        → (k : ℕ) × Moves s in_progress k × (n ≡ suc k)
    through start e other = absurd (other e)
    through {s} (move {t = r} {n = k} m step) e other =
        (k, rw (sym (before_completed r (rw e at step))) m, refl)
