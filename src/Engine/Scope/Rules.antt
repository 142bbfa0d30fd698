-- ===== src/Engine/Scope/Rules.antt =====
-- What a request must be for the guard to allow it (packages/engine/src/runtime/scope.ts).
use vibefy.Prelude.{
  ℕ, ◌+◌, ◌-◌, ◌*◌, ◌≤◌, ◌<◌, String, Bool, true, false, not, ◌&&◌, Option, none, some, [], ◌∷◌,
  Memᴰ, includes, includes_sound, leb, ltb, ◌==◌, text_eq, eq_sound, ◌≡◌, refl, ◌↔◌, ◌⊎◌, inl, inr,
  Bool-cases, Option-cases, arith,
}
use vibefy.Engine.Scope.{
  Url, Platform, ScopePolicy, Refusal, allowed, ScopeGuard, whole, host_in_scope, excluded,
  destructive_methods, read_methods, refuse_if, rules_for, parsed_rules, rules, available,
  take_token, after_token, budget, check,
}

-- The rules, in their own terms: an address that can be read, over https (or http, which only a
-- policy for tests permits), with a method that reads or POST, to a host in scope and not excluded.
pub record InScope (platform : Platform) (policy : ScopePolicy) (raw_url method : String)
    : Type 0 where
  pub url : Url
  pub parsed : platform.parse_url raw_url ≡ some url
  pub scheme :
      (url.protocol ≡ "https:")
      ⊎ ((url.protocol ≡ "http:") × (policy.allow_private_network_for_testing ≡ true))
  pub harmless :
      Memᴰ (platform.upper method) (read_methods platform)
      ⊎ ((platform.upper method ≡ "POST") × (policy.ceiling.non_destructive_only ≡ true))
  pub declared : host_in_scope platform policy url.hostname ≡ true
  pub not_excluded : excluded platform policy url ≡ false

module _ (platform : Platform) where
  refuse_if-none :
      (b : Bool) (r : Refusal) (rest : Option Refusal)
      → (refuse_if platform b r rest ≡ none) ↔ ((b ≡ false) × (rest ≡ none))
  refuse_if-none true r rest = (λ h. cc h, λ (h, _). cc h)
  refuse_if-none false r rest = (λ h. (refl, h), λ (_, h). h)

  only_testing : (t : Bool) → (not false && not t) ≡ false → t ≡ true
  only_testing true h = refl
  only_testing false h = cc h

  scheme_iff :
      (p : String) (testing : Bool)
      → (((not (p == "https:") && not testing) ≡ false)
          × (not (includes ("https:" ∷ "http:" ∷ []) p) ≡ false))
        ↔ ((p ≡ "https:") ⊎ ((p ≡ "http:") × (testing ≡ true)))
  scheme_iff p testing = (
    (λ (first, second). read first (includes_sound ("https:" ∷ "http:" ∷ []) p (ground arith))),
    λ h. elim h [ inl e ↦ rw e (refl, refl) | inr (e, t) ↦ rw (e, t) (refl, refl) ],
  )
    where
      read :
          (not (p == "https:") && not testing) ≡ false
          → Memᴰ p ("https:" ∷ "http:" ∷ [])
          → (p ≡ "https:") ⊎ ((p ≡ "http:") × (testing ≡ true))
      read h (Memᴰ.head q) = inl q
      read h (Memᴰ.tail (Memᴰ.head q)) = inr (q, only_testing testing (rw q at h))
      read h (Memᴰ.tail (Memᴰ.tail i)) = elim i [ ]

  harmless_of :
      (m : String) (safe : Bool)
      → (not (includes (read_methods platform) m) && not (m == "POST")) ≡ false
      → ((m == "POST") && not safe) ≡ false
      → Memᴰ m (read_methods platform) ⊎ ((m ≡ "POST") × (safe ≡ true))
  harmless_of m safe h k = elim (Bool-cases (includes (read_methods platform) m)) [
    | inl reads ↦ inl (includes_sound (read_methods platform) m reads)
    | inr other ↦ elim (Bool-cases (m == "POST")) [
      | inl post ↦ inr (eq_sound m "POST" post, ground arith)
      | inr neither ↦ cc (rw (other, neither) at h)
    ]
  ]

  -- The three tests of the method pass for a method that is harmless.
  Passes : String → Bool → Type 0
  Passes m safe =
      (includes (destructive_methods platform) m ≡ false)
      × ((not (includes (read_methods platform) m) && not (m == "POST")) ≡ false)
      × (((m == "POST") && not safe) ≡ false)

  harmless-Passes :
      (m : String) (safe : Bool)
      → Memᴰ m (read_methods platform) ⊎ ((m ≡ "POST") × (safe ≡ true))
      → Passes m safe
  unfolding Passes
  harmless-Passes m safe (inr (e, s)) = rw (e, s) (refl, refl, refl)
  harmless-Passes m safe (inl (Memᴰ.head q)) = rw q (refl, refl, refl)
  harmless-Passes m safe (inl (Memᴰ.tail (Memᴰ.head q))) = rw q (refl, refl, refl)
  harmless-Passes m safe (inl (Memᴰ.tail (Memᴰ.tail (Memᴰ.head q)))) = rw q (refl, refl, refl)
  harmless-Passes m safe (inl (Memᴰ.tail (Memᴰ.tail (Memᴰ.tail i)))) = elim i [ ]

  -- The rules refuse nothing exactly of a request in scope.
  pub rules_iff :
      (policy : ScopePolicy) (raw_url method : String)
      → (rules platform policy raw_url method ≡ none) ↔ InScope platform policy raw_url method
  unfolding rules rules_for Passes
  rules_iff policy raw_url method = (
    (λ h. forth (platform.parse_url raw_url) refl h),
    λ s.
        let (destructive, unsupported, malformed) = harmless-Passes _ _ s.harmless in
        let (https, known) =
          (scheme_iff s.url.protocol policy.allow_private_network_for_testing).1 s.scheme in
        rw
          (s.parsed, https, known, destructive, unsupported, malformed, s.declared, s.not_excluded),
  )
    where
      forth :
          (o : Option Url)
          → platform.parse_url raw_url ≡ o
          → parsed_rules platform policy o method ≡ none
          → InScope platform policy raw_url method
      forth none e h = cc h
      forth (some url) e h =
          let (https, h₁) = (refuse_if-none _ Refusal.non_https_scheme _).0 h in
          let (known, h₂) = (refuse_if-none _ Refusal.unsupported_scheme _).0 h₁ in
          let (_, h₃) = (refuse_if-none _ Refusal.destructive_method _).0 h₂ in
          let (unsupported, h₄) = (refuse_if-none _ Refusal.unsupported_method _).0 h₃ in
          let (malformed, h₅) = (refuse_if-none _ Refusal.malformed_ceiling _).0 h₄ in
          let (outside, h₆) = (refuse_if-none _ Refusal.host_out_of_scope _).0 h₅ in
          let (inside, _) = (refuse_if-none _ Refusal.explicitly_excluded none).0 h₆ in
          record {
            url = url;
            parsed = e;
            scheme =
                (scheme_iff url.protocol policy.allow_private_network_for_testing).0 (https, known);
            harmless =
                harmless_of (platform.upper method) policy.ceiling.non_destructive_only unsupported
                  malformed;
            declared = ground (arith, outside);
            not_excluded = inside;
          }

-- What the ceilings of the run still allow.
abbrev pub WithinCeilings : ScopeGuard → ℕ → Type 0
WithinCeilings guard now =
    (now ≤ guard.started_at + guard.policy.ceiling.max_duration_seconds * 1000)
    × (guard.request_count < guard.policy.ceiling.max_total_requests)
    × (whole ≤ available guard now)

token_iff :
    (guard : ScopeGuard) (url : String) (now : ℕ)
    → ((after_token (take_token guard now) url).1 ≡ allowed) ↔ (whole ≤ available guard now)
unfolding take_token
token_iff guard url now = elim (Bool-cases (ltb (available guard now) whole)) [
  | inl short ↦ rw short (λ h. cc h, λ h. ground arith)
  | inr enough ↦ rw enough (λ h. ground arith, λ h. refl)
]

budget_iff :
    (guard : ScopeGuard) (url : String) (now : ℕ)
    → ((budget guard url now).1 ≡ allowed) ↔ WithinCeilings guard now
budget_iff guard url now =
    elim (Bool-cases
      (ltb (guard.policy.ceiling.max_duration_seconds * 1000) (now - guard.started_at))) [
        | inl late ↦ rw late (λ h. cc h, λ (h, _, _). ground arith)
        | inr in_time ↦
            elim (Bool-cases (leb guard.policy.ceiling.max_total_requests guard.request_count)) [
              | inl spent ↦ rw (in_time, spent) (λ h. cc h, λ (_, h, _). ground arith)
              | inr left ↦
                  let token = token_iff guard url now in
                  rw (in_time, left)
                    (λ h. (ground arith, ground arith, token.0 h), λ (_, _, h). token.1 h)
            ]
      ]

-- The rules alone, which the dispatcher checks without counting, allow exactly the requests in scope;
-- a request that is counted is allowed exactly when it is in scope and the run is within its time,
-- its number of requests and its rate.
pub check_allowed_iff :
    (platform : Platform) (guard : ScopeGuard) (raw_url method : String) (now : ℕ)
    → (((check platform guard raw_url method now false).1 ≡ allowed)
        ↔ InScope platform guard.policy raw_url method)
      × (((check platform guard raw_url method now true).1 ≡ allowed)
          ↔ (InScope platform guard.policy raw_url method × WithinCeilings guard now))
unfolding check
check_allowed_iff platform guard raw_url method now =
    let scope = rules_iff platform guard.policy raw_url method in
    let within = budget_iff guard raw_url now in
    elim (Option-cases (rules platform guard.policy raw_url method)) [
      | inl clear ↦ rw clear (
        (λ _. scope.0 clear, λ _. refl),
        (λ h. (scope.0 clear, within.0 h), λ (_, h). within.1 h),
      )
      | inr (reason, broken) ↦
          rw broken (
            (λ h. cc h, λ s. cc (broken, scope.1 s)),
            (λ h. cc h, λ (s, _). cc (broken, scope.1 s)),
          )
    ]
