-- ===== src/Engine/Scope.antt =====
-- packages/engine/src/runtime/scope.ts: the guard that every request of a run passes. Times are in
-- milliseconds. The bucket of the rate ceiling is kept in units of 1 / 60000 of a request, in which a
-- millisecond refills `max_requests_per_minute`, exactly; the code keeps it as a floating-point
-- number. The platform's URL parser and its changes of case and white space are parameters.
pub mod Rules
pub mod Rate
pub mod Wait
pub mod Requests
mod Tests
use Prim.Native.String.{len, slice, ◌++◌ as str_append}
use text.Mathlib.Text.{starts_with}
use vibefy.Prelude.{
  ℕ, ◌+◌, ◌-◌, ◌*◌, ◌/◌, min, max, String, Bool, true, false, not, ◌&&◌, ◌||◌, Option, none, some,
  List, [], ◌∷◌, ◌++◌, any, includes, leb, ltb, if◌then◌else◌, ◌==◌, text_eq, number_eq,
}

pub record Url : Type 0 where
  pub protocol : String
  pub host : String
  pub hostname : String
  pub pathname : String

-- `new URL`, `toLowerCase`, `toUpperCase` and `trim`.
pub record Platform : Type 0 where
  pub parse_url : String → Option Url
  pub lower : String → String
  pub upper : String → String
  pub trim : String → String

pub record IntensityCeiling : Type 0 where
  pub non_destructive_only : Bool
  pub max_requests_per_minute : ℕ
  pub max_total_requests : ℕ
  pub max_duration_seconds : ℕ

pub record ScopePolicy : Type 0 where
  pub allowed_hosts : List String
  pub exclusions : List String
  pub ceiling : IntensityCeiling
  pub allow_private_network_for_testing : Bool

abbrev pub default_ceiling : IntensityCeiling
default_ceiling = record {
  non_destructive_only = true;
  max_requests_per_minute = 240;
  max_total_requests = 12000;
  max_duration_seconds = 1800;
}

pub data Refusal : Type 0 where
  unparseable_url non_https_scheme unsupported_scheme destructive_method : Refusal
  unsupported_method malformed_ceiling host_out_of_scope explicitly_excluded rate_limited : Refusal

pub data CeilingError : Type 0 where
  max_duration max_total : CeilingError

-- What a check returns, or that it throws.
pub data Outcome : Type 0 where
  allowed : Outcome
  refused : Refusal → Outcome
  exceeded : CeilingError → Outcome

pub record ScopeGuard : Type 0 where
  pub policy : ScopePolicy
  pub request_count : ℕ
  pub started_at : ℕ
  pub tokens : ℕ
  pub last_refill : ℕ
  pub violations : List (String × Refusal)
  pub rate_wait_ms : ℕ

-- A request, in the unit of the bucket.
abbrev pub whole : ℕ
whole = 60000

abbrev pub is_nil {ℓ} : {A : Type ℓ} → List A → Bool
is_nil [] = true
is_nil (x ∷ xs) = false

-- The constructor, which refuses an empty allowlist.
pub new_guard : ScopePolicy → ℕ → Option ScopeGuard
new_guard policy now =
    if is_nil policy.allowed_hosts
    then none
    else some (record {
      policy = policy;
      request_count = 0;
      started_at = now;
      tokens = policy.ceiling.max_requests_per_minute * whole;
      last_refill = now;
      violations = [];
      rate_wait_ms = 0;
    })

abbrev ends_with : String → String → Bool
ends_with s t = leb (len t) (len s) && (slice s (len s - len t) (len s) == t)

-- `.replace(/\.$/, '')` and `.replace(/^\*\./, '')`.
abbrev without_dot : String → String
without_dot s = if ends_with s "." then slice s 0 (len s - 1) else s

abbrev without_star : String → String
without_star s = if starts_with s "*." then slice s 2 (len s) else s

module _ (platform : Platform) where
  pub host_in_scope : ScopePolicy → String → Bool
  host_in_scope policy host =
      let normalised = without_dot (platform.lower host) in
      any
        (λ (a : String).
          let candidate = without_dot (without_star (platform.lower a)) in
          (normalised == candidate) || ends_with normalised (str_append "." candidate))
        policy.allowed_hosts

  pub excludes : Url → String → Bool
  excludes url exclusion =
      let trimmed = platform.lower (platform.trim exclusion) in
      let path = platform.lower url.pathname in
      let host = platform.lower url.host in
      let hostname = platform.lower url.hostname in
      if trimmed == ""
      then false
      else if starts_with trimmed "/"
      then starts_with path trimmed
      else ((host == trimmed) || (hostname == trimmed))
        || (starts_with (platform.lower (str_append host url.pathname)) trimmed
            || starts_with (platform.lower (str_append hostname url.pathname)) trimmed)

  pub excluded : ScopePolicy → Url → Bool
  excluded policy url = any (excludes url) policy.exclusions

  abbrev pub destructive_methods : List String
  destructive_methods = "DELETE" ∷ "PUT" ∷ "PATCH" ∷ []

  abbrev pub read_methods : List String
  read_methods = "GET" ∷ "HEAD" ∷ "OPTIONS" ∷ []

  abbrev refuse_if : Bool → Refusal → Option Refusal → Option Refusal
  refuse_if true reason rest = some reason
  refuse_if false reason rest = rest

  -- The rules of `check` after the URL is parsed, in its order.
  pub rules_for : ScopePolicy → Url → String → Option Refusal
  rules_for policy url method =
      let m = platform.upper method in
      refuse_if (not (url.protocol == "https:") && not policy.allow_private_network_for_testing)
        Refusal.non_https_scheme
        (refuse_if (not (includes ("https:" ∷ "http:" ∷ []) url.protocol))
          Refusal.unsupported_scheme
          (refuse_if (includes destructive_methods m) Refusal.destructive_method (
            refuse_if (not (includes read_methods m) && not (m == "POST"))
              Refusal.unsupported_method
              (refuse_if ((m == "POST") && not policy.ceiling.non_destructive_only)
                Refusal.malformed_ceiling
                (refuse_if (not (host_in_scope policy url.hostname)) Refusal.host_out_of_scope
                  (refuse_if (excluded policy url) Refusal.explicitly_excluded none))))))

  abbrev parsed_rules : ScopePolicy → Option Url → String → Option Refusal
  parsed_rules policy none method = some Refusal.unparseable_url
  parsed_rules policy (some url) method = rules_for policy url method

  pub rules : ScopePolicy → String → String → Option Refusal
  rules policy raw_url method = parsed_rules policy (platform.parse_url raw_url) method

-- `refuse`: the refusal is kept for the run record.
abbrev refuse : ScopeGuard → String → Refusal → ScopeGuard × Outcome
refuse guard url reason =
    (record guard { violations = guard.violations ++ (url, reason) ∷ [] }, refused reason)

-- What is in the bucket at a time: refilled since the last time, and never more than a minute's worth.
pub available : ScopeGuard → ℕ → ℕ
available guard now =
    let rate = guard.policy.ceiling.max_requests_per_minute in
    min (rate * whole) (guard.tokens + (now - guard.last_refill) * rate)

pub take_token : ScopeGuard → ℕ → ScopeGuard × Bool
take_token guard now =
    let units = available guard now in
    if ltb units whole
    then (record guard { tokens = units; last_refill = now }, false)
    else (record guard { tokens = units - whole; last_refill = now }, true)

abbrev after_token : ScopeGuard × Bool → String → ScopeGuard × Outcome
after_token (guard, true) url = (record guard { request_count = guard.request_count + 1 }, allowed)
after_token (guard, false) url = refuse guard url Refusal.rate_limited

abbrev budget : ScopeGuard → String → ℕ → ScopeGuard × Outcome
budget guard url now =
    if ltb (guard.policy.ceiling.max_duration_seconds * 1000) (now - guard.started_at)
    then (guard, exceeded max_duration)
    else if leb guard.policy.ceiling.max_total_requests guard.request_count
    then (guard, exceeded max_total)
    else after_token (take_token guard now) url

abbrev checked : Option Refusal → ScopeGuard → String → ℕ → Bool → ScopeGuard × Outcome
checked (some reason) guard url now counting = refuse guard url reason
checked none guard url now counting =
    if not counting then (guard, allowed) else budget guard url now

pub check : Platform → ScopeGuard → String → String → ℕ → Bool → ScopeGuard × Outcome
check platform guard raw_url method now counting =
    checked (rules platform guard.policy raw_url method) guard raw_url now counting

-- How long until the bucket has a request again: `Math.ceil` of a division, and at least 1.
pub ms_until_slot : ScopeGuard → ℕ → ℕ
ms_until_slot guard now =
    let rate = guard.policy.ceiling.max_requests_per_minute in
    let units = available guard now in
    if leb whole units then 0 else max 1 ((whole - units + (rate - 1)) / rate)

pub record_rate_wait : ScopeGuard → ℕ → ScopeGuard
record_rate_wait guard ms = record guard { rate_wait_ms = guard.rate_wait_ms + ms }
