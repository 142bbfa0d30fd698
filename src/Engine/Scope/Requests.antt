-- ===== src/Engine/Scope/Requests.antt =====
-- What one check leaves behind (packages/engine/src/runtime/scope.ts).
use vibefy.Prelude.{
  ℕ, ◌+◌, ◌-◌, ◌*◌, String, Bool, true, false, none, [], ◌∷◌, ◌++◌, leb, ltb, if◌then◌else◌, ◌≡◌,
  ◌≢◌, refl, ap, ◌∙◌, inl, inr, Bool-cases, Option-cases,
}
use vibefy.Engine.Scope.{
  Platform, Refusal, Outcome, CeilingError, allowed, refused, exceeded, ScopeGuard, whole, rules,
  refuse, available, take_token, after_token, budget, checked, check,
}

-- The record of a check: a refusal stands at the end of the list with its address, and only a
-- request that is allowed is counted, when it is to be.
abbrev pub Recorded : ScopeGuard → String → Bool → ScopeGuard × Outcome → Type 0
Recorded g url counting (g', outcome) =
    ((r : Refusal) → outcome ≡ refused r → g'.violations ≡ g.violations ++ (url, r) ∷ [])
    × (((r : Refusal) → outcome ≢ refused r) → g'.violations ≡ g.violations)
    × (outcome ≢ allowed → g'.request_count ≡ g.request_count)
    × (outcome ≡ allowed
        → g'.request_count ≡ (if counting then g.request_count + 1 else g.request_count))

refuse-Recorded :
    (g m : ScopeGuard) (url : String) (counting : Bool) (r : Refusal)
    → m.violations ≡ g.violations
    → m.request_count ≡ g.request_count
    → Recorded g url counting (refuse m url r)
refuse-Recorded g m url counting r v c = (
  (λ s e.
      let same : r ≡ s = cc e in
      ap (λ x. x ++ (url, r) ∷ []) v ∙ ap (λ x. g.violations ++ (url, x) ∷ []) same),
  (λ never. absurd (never r refl)),
  (λ _. c),
  (λ e. cc e),
)

nothing-Recorded :
    (g : ScopeGuard) (url : String) (counting : Bool) (e : CeilingError)
    → Recorded g url counting (g, exceeded e)
nothing-Recorded g url counting e = ((λ r h. cc h), (λ _. refl), (λ _. refl), (λ h. cc h))

token-Recorded :
    (g : ScopeGuard) (url : String) (now : ℕ)
    → Recorded g url true (after_token (take_token g now) url)
unfolding take_token
token-Recorded g url now = elim (Bool-cases (ltb (available g now) whole)) [
  | inl short ↦ rw short (
      refuse-Recorded g (record g { tokens = available g now; last_refill = now }) url true
        Refusal.rate_limited refl refl)
  | inr enough ↦ rw enough ((λ r h. cc h), (λ _. refl), (λ other. absurd (other refl)), (λ _. refl))
]

budget-Recorded : (g : ScopeGuard) (url : String) (now : ℕ) → Recorded g url true (budget g url now)
budget-Recorded g url now =
    elim (Bool-cases (ltb (g.policy.ceiling.max_duration_seconds * 1000) (now - g.started_at))) [
      | inl late ↦ rw late (nothing-Recorded g url true CeilingError.max_duration)
      | inr in_time ↦ elim (Bool-cases (leb g.policy.ceiling.max_total_requests g.request_count)) [
        | inl spent ↦ rw (in_time, spent) (nothing-Recorded g url true CeilingError.max_total)
        | inr left ↦ rw (in_time, left) (token-Recorded g url now)
      ]
    ]

-- Every refusal is recorded, with the address and the reason, behind those before it, and nothing
-- else is; a request is counted exactly when it is allowed and the caller asks for it to be counted.
check-Recorded :
    (platform : Platform) (g : ScopeGuard) (url method : String) (now : ℕ) (counting : Bool)
    → Recorded g url counting (check platform g url method now counting)
unfolding check
check-Recorded platform g url method now counting =
    elim (Option-cases (rules platform g.policy url method)) [
      | inr (reason, broken) ↦ rw broken (refuse-Recorded g g url counting reason refl refl)
      | inl clear ↦ rw clear (by_budget counting)
    ]
  where
    by_budget : (counts : Bool) → Recorded g url counts (checked none g url now counts)
    by_budget true = budget-Recorded g url now
    by_budget false = ((λ r h. cc h), (λ _. refl), (λ other. absurd (other refl)), (λ _. refl))
