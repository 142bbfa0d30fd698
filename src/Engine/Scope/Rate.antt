-- ===== src/Engine/Scope/Rate.antt =====
-- The ceilings of a run over all of its requests (packages/engine/src/runtime/scope.ts).
use native.Mathlib.Nat.{add-mul}
use vibefy.Prelude.{
  ℕ, ◌+◌, ◌-◌, ◌*◌, ◌≤◌, ◌<◌, String, true, some, List, [], ◌∷◌, leb, ltb, ◌≡◌, refl, sym, ap, ◌∙◌,
  inl, inr, ltb-false, Bool-cases, Option-cases, arith,
}
use vibefy.Engine.Scope.{
  Platform, ScopePolicy, Refusal, Outcome, allowed, ScopeGuard, whole, new_guard, rules, available,
  take_token, after_token, budget, check,
}

pub record Ask : Type 0 where
  pub url : String
  pub method : String
  pub at : ℕ

abbrev pub is_allowed : Outcome → ℕ
is_allowed allowed = 1
is_allowed _ = 0

-- The requests of a run, in the order in which the guard sees them, and how many it allows.
pub ask_all : Platform → ScopeGuard → List Ask → ScopeGuard × ℕ
ask_all platform guard [] = (guard, 0)
ask_all platform guard (a ∷ asks) =
    let (after, outcome) = check platform guard a.url a.method a.at true in
    let (end, n) = ask_all platform after asks in (end, is_allowed outcome + n)

-- The clock does not go back.
abbrev pub InOrder : ℕ → List Ask → Type 0
InOrder t [] = Unit
InOrder t (a ∷ asks) = (t ≤ a.at) × InOrder a.at asks

abbrev pub last_time : ℕ → List Ask → ℕ
last_time t [] = t
last_time t (a ∷ asks) = last_time a.at asks

abbrev rate : ScopeGuard → ℕ
rate guard = guard.policy.ceiling.max_requests_per_minute

-- What one check does to the ceilings, with how many requests it allows. The bucket never holds more,
-- with what was let out of it, than it would have held untouched, at any later time.
record Step (g g' : ScopeGuard) (at allows : ℕ) : Type 0 where
  same_policy : g'.policy ≡ g.policy
  counted : g'.request_count ≡ g.request_count + allows
  limited :
      g.request_count ≤ g.policy.ceiling.max_total_requests
      → g'.request_count ≤ g.policy.ceiling.max_total_requests
  refilled : g.last_refill ≤ at → g'.last_refill ≤ at
  bucket :
      (later : ℕ)
      → g.last_refill ≤ at
      → at ≤ later
      → g'.tokens + allows * whole + (later - g'.last_refill) * rate g
        ≤ g.tokens + (later - g.last_refill) * rate g

stay :
    (g : ScopeGuard) (at : ℕ) (vs : List (String × Refusal))
    → Step g (record g { violations = vs }) at 0
stay g at vs = record {
  same_policy = refl;
  counted = omega arith;
  limited = λ h. h;
  refilled = λ h. h;
  bucket = λ later h k. omega arith;
}

-- A time apart is the sum of its two parts, also in refilled units.
split_time :
    (from at later n : ℕ)
    → from ≤ at
    → at ≤ later
    → (later - at) * n + (at - from) * n ≡ (later - from) * n
split_time from at later n h k =
    sym (add-mul (later - at) (at - from) n)
    ∙ ap (λ x. x * n) (let e : later - at + (at - from) ≡ later - from = omega arith in e)

available_bound :
    (g : ScopeGuard) (at : ℕ) → available g at ≤ g.tokens + (at - g.last_refill) * rate g
unfolding available
available_bound g at = omega arith

token-Step :
    (g : ScopeGuard) (url : String) (at : ℕ)
    → g.request_count < g.policy.ceiling.max_total_requests
    → Step g
        (after_token (take_token g at) url).0
        at
        (is_allowed (after_token (take_token g at) url).1)
unfolding take_token
token-Step g url at left = elim (Bool-cases (ltb (available g at) whole)) [
  | inl short ↦ rw short (record {
    same_policy = refl;
    counted = omega arith;
    limited = λ h. h;
    refilled = λ h. omega arith;
    bucket = λ later h k.
        let bound = available_bound g at in
        let parts = split_time g.last_refill at later (rate g) h k in omega arith;
  })
  | inr enough ↦ rw enough (record {
    same_policy = refl;
    counted = refl;
    limited = λ h. omega arith;
    refilled = λ h. omega arith;
    bucket = λ later h k.
        let bound = available_bound g at in
        let parts = split_time g.last_refill at later (rate g) h k in
        let full = ltb-false (available g at) whole enough in omega arith;
  })
]

budget-Step :
    (g : ScopeGuard) (url : String) (at : ℕ)
    → Step g (budget g url at).0 at (is_allowed (budget g url at).1)
budget-Step g url at =
    elim (Bool-cases (ltb (g.policy.ceiling.max_duration_seconds * 1000) (at - g.started_at))) [
      | inl late ↦ rw late (stay g at g.violations)
      | inr in_time ↦ elim (Bool-cases (leb g.policy.ceiling.max_total_requests g.request_count)) [
        | inl spent ↦ rw (in_time, spent) (stay g at g.violations)
        | inr left ↦ rw (in_time, left) (token-Step g url at (ground arith))
      ]
    ]

check-Step :
    (platform : Platform) (g : ScopeGuard) (url method : String) (at : ℕ)
    → Step g
        (check platform g url method at true).0
        at
        (is_allowed (check platform g url method at true).1)
unfolding check
check-Step platform g url method at = elim (Option-cases (rules platform g.policy url method)) [
  | inl clear ↦ rw clear (budget-Step g url at)
  | inr (reason, broken) ↦ rw broken (stay g at _)
]

-- What a whole run does to the ceilings.
record Run (g g' : ScopeGuard) (last allows : ℕ) : Type 0 where
  same_policy : g'.policy ≡ g.policy
  counted : g'.request_count ≡ g.request_count + allows
  limited :
      g.request_count ≤ g.policy.ceiling.max_total_requests
      → g'.request_count ≤ g.policy.ceiling.max_total_requests
  bucket : allows * whole + g'.tokens ≤ g.tokens + (last - g.last_refill) * rate g

last_time_bound : (t : ℕ) (asks : List Ask) → InOrder t asks → t ≤ last_time t asks
last_time_bound t [] h = omega arith
last_time_bound t (a ∷ asks) (first, rest) =
    let later = last_time_bound a.at asks rest in omega arith

one_more :
    (g m e : ScopeGuard) (at last b n : ℕ)
    → g.last_refill ≤ at
    → at ≤ last
    → Step g m at b
    → Run m e last n
    → Run g e last (b + n)
one_more g m e at last b n h k s r = record {
  same_policy = r.same_policy ∙ s.same_policy;
  counted = omega (arith, r.counted, s.counted);
  limited = λ l.
      let limits = ap (λ (p : ScopePolicy). p.ceiling.max_total_requests) s.same_policy in
      let here = s.limited l in let there = r.limited (omega arith) in omega arith;
  bucket =
      let here = s.bucket last h k in
      let there : n * whole + e.tokens ≤ m.tokens + (last - m.last_refill) * rate g =
        rw (← ap (λ (p : ScopePolicy). p.ceiling.max_requests_per_minute) s.same_policy) r.bucket in
      omega arith;
}

ask_all-Run :
    (platform : Platform) (g : ScopeGuard) (t : ℕ) (asks : List Ask)
    → g.last_refill ≤ t
    → InOrder t asks
    → Run g (ask_all platform g asks).0 (last_time t asks) (ask_all platform g asks).1
unfolding ask_all
ask_all-Run platform g t [] h order = record {
  same_policy = refl;
  counted = omega arith;
  limited = λ l. l;
  bucket = omega arith;
}
ask_all-Run platform g t (a ∷ asks) h (first, rest) =
    let s = check-Step platform g a.url a.method a.at in
    let r =
      ask_all-Run platform (check platform g a.url a.method a.at true).0 a.at asks
        (s.refilled (omega arith)) rest in
    one_more g (check platform g a.url a.method a.at true).0 _ a.at (last_time a.at asks) _ _
      (omega arith) (last_time_bound a.at asks rest) s r

new_guard-some :
    (policy : ScopePolicy) (now : ℕ) (g : ScopeGuard)
    → new_guard policy now ≡ some g
    → (g.policy ≡ policy)
      × (g.request_count ≡ 0)
      × (g.last_refill ≡ now)
      × (g.tokens ≡ policy.ceiling.max_requests_per_minute * whole)
unfolding new_guard
new_guard-some policy now g h = ground arith

-- While the clock does not go back, a run is allowed no more requests than its total, and no more
-- than one minute's worth and what its rate gives for the time since its start (times 60000, the
-- milliseconds of a minute); and the guard's count is the number of requests that it allowed.
pub requests_capped :
    (platform : Platform) (policy : ScopePolicy) (now : ℕ) (guard : ScopeGuard) (asks : List Ask)
    → new_guard policy now ≡ some guard
    → InOrder now asks
    → let (end, n) = ask_all platform guard asks in
      (end.request_count ≡ n)
      × (n ≤ policy.ceiling.max_total_requests)
      × (n * 60000
          ≤ policy.ceiling.max_requests_per_minute * 60000
            + (last_time now asks - now) * policy.ceiling.max_requests_per_minute)
requests_capped platform policy now guard asks h order =
    let (same, none_yet, started, full) = new_guard-some policy now guard h in
    let r = ask_all-Run platform guard now asks (omega arith) order in
    let rates = ap (λ (p : ScopePolicy). p.ceiling.max_requests_per_minute) same in
    let totals = ap (λ (p : ScopePolicy). p.ceiling.max_total_requests) same in
    let within = r.limited (omega arith) in
    let spread : (last_time now asks - guard.last_refill) * rate guard
        ≡ (last_time now asks - now) * policy.ceiling.max_requests_per_minute =
      ap (λ x. (last_time now asks - x) * rate guard) started
      ∙ ap (λ x. (last_time now asks - now) * x) rates in
    let filled = r.bucket in let counts = r.counted in (omega arith, omega arith, omega arith)
