-- ===== src/Engine/Scope/Wait.antt =====
-- How long the guard says to wait (`msUntilSlot` of packages/engine/src/runtime/scope.ts).
use native.Mathlib.Nat.{add-mul, le-div_iff_mul-le, lt-div-mul-add}
use vibefy.Prelude.{
  ℕ, ◌+◌, ◌-◌, ◌*◌, ◌/◌, ◌≤◌, ◌<◌, min, max, true, false, leb, ltb, ◌≡◌, refl, ap, ◌∙◌, ◌↔◌, inl,
  inr, Bool-cases, arith,
}
use vibefy.Engine.Scope.{ScopeGuard, whole, available, take_token, ms_until_slot}

abbrev rate : ScopeGuard → ℕ
rate g = g.policy.ceiling.max_requests_per_minute

-- What is in the bucket some time later, while it holds less than a request.
available_later :
    (g : ScopeGuard) (now ms : ℕ)
    → g.last_refill ≤ now
    → 0 < rate g
    → available g now < whole
    → available g (now + ms) ≡ min (rate g * whole) (available g now + ms * rate g)
unfolding available
available_later g now ms h positive short =
    let shift : now + ms - g.last_refill ≡ now - g.last_refill + ms = omega arith in
    let spread : (now + ms - g.last_refill) * rate g
        ≡ (now - g.last_refill) * rate g + ms * rate g =
      ap (λ x. x * rate g) shift ∙ add-mul (now - g.last_refill) ms (rate g) in
    omega arith

token_when : (g : ScopeGuard) (at : ℕ) → ((take_token g at).1 ≡ true) ↔ (whole ≤ available g at)
unfolding take_token
token_when g at = elim (Bool-cases (ltb (available g at) whole)) [
  | inl short ↦ rw short (λ h. cc h, λ h. ground arith)
  | inr enough ↦ rw enough (λ h. ground arith, λ h. refl)
]

-- The whole milliseconds that refill what is missing, and not one fewer.
missing_lem :
    (missing n : ℕ)
    → 0 < n
    → 0 < missing
    → let w = (missing + (n - 1)) / n in (missing ≤ w * n) × ((k : ℕ) → k < w → k * n < missing)
missing_lem missing n positive some_missing =
    let whole_part = lt-div-mul-add {a = missing + (n - 1)} {b = n} positive in
    (
      omega arith,
      λ k h.
          let fits : (k + 1) * n ≤ missing + (n - 1) =
            (le-div_iff_mul-le {k = n} {x = k + 1} {y = missing + (n - 1)} positive).0
              (omega arith) in
          let parts = add-mul k 1 n in omega arith,
    )

-- The time to wait is exact, while the clock has not gone back and the rate is not nought: after it a
-- request is let out of the bucket, and at no time before it.
ms_until_slot_exact :
    (g : ScopeGuard) (now : ℕ)
    → g.last_refill ≤ now
    → 0 < g.policy.ceiling.max_requests_per_minute
    → ((take_token g (now + ms_until_slot g now)).1 ≡ true)
      × ((ms : ℕ) → ms < ms_until_slot g now → (take_token g (now + ms)).1 ≡ false)
ms_until_slot_exact g now h positive = elim (Bool-cases (leb whole (available g now))) [
  | inl full ↦
      let none_left : ms_until_slot g now ≡ 0 = unfold ms_until_slot in rw full in
      let here : now + ms_until_slot g now ≡ now = omega arith in
      (
        (token_when g (now + ms_until_slot g now)).1
            (let same = ap (available g) here in ground arith),
        λ ms lt. absurd (omega arith),
      )
  | inr short ↦
      let units = available g now in
      let n = rate g in
      let (enough, none_sooner) = missing_lem (whole - units) n positive (ground arith) in
      let w : ms_until_slot g now ≡ (whole - units + (n - 1)) / n =
        unfold ms_until_slot in rw short (at_least_one (whole - units) n positive (ground arith)) in
      let below : units < whole = ground arith in
      (
        (token_when g (now + ms_until_slot g now)).1 (
            let later = available_later g now (ms_until_slot g now) h positive below in
            let filled : whole - units ≤ ms_until_slot g now * n = rw w enough in omega arith),
        λ ms lt. not_yet ms (
            let later = available_later g now ms h positive below in
            let missing = none_sooner ms (rw (← w) lt) in omega arith),
      )
]
  where
    at_least_one :
        (missing n : ℕ)
        → 0 < n
        → 0 < missing
        → max 1 ((missing + (n - 1)) / n) ≡ (missing + (n - 1)) / n
    at_least_one missing n p q =
        let one = (le-div_iff_mul-le {k = n} {x = 1} {y = missing + (n - 1)} p).1 (omega arith) in
        omega arith

    not_yet : (ms : ℕ) → available g (now + ms) < whole → (take_token g (now + ms)).1 ≡ false
    not_yet ms lt = elim (Bool-cases (take_token g (now + ms)).1) [
      | inl taken ↦ let full = (token_when g (now + ms)).0 taken in absurd (omega arith)
      | inr left ↦ left
    ]
