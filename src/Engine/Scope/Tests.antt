-- ===== src/Engine/Scope/Tests.antt =====
-- A guard for one host, on a platform that reads two addresses (packages/engine/src/runtime/scope.ts).
use vibefy.Prelude.{
  ◌+◌, ◌-◌, ◌*◌, ◌≤◌, true, false, none, some, List, [], ◌∷◌, if◌then◌else◌, ◌==◌, text_eq, ◌≡◌,
  ◌↔◌, refl, arith,
}
use vibefy.Engine.Scope.{
  Url, Platform, ScopePolicy, default_ceiling, Refusal, allowed, ScopeGuard, new_guard,
  host_in_scope, excluded, excludes, rules_for, rules, check,
}
use vibefy.Engine.Scope.Rules.{InScope, WithinCeilings, check_allowed_iff}
use vibefy.Engine.Scope.Rate.{Ask, last_time, ask_all, requests_capped}

abbrev shop_page : Url
shop_page = record {
  protocol = "https:";
  host = "www.shop.test";
  hostname = "www.shop.test";
  pathname = "/";
}

abbrev admin_page : Url
admin_page = record shop_page { pathname = "/admin/users" }

abbrev platform : Platform
platform = record {
  parse_url = λ raw.
      if raw == "https://www.shop.test/"
      then some shop_page
      else if raw == "https://www.shop.test/admin/users"
      then some admin_page
      else none;
  lower = λ s. s;
  upper = λ s. s;
  trim = λ s. s;
}

abbrev policy : ScopePolicy
policy = record {
  allowed_hosts = "*.shop.test" ∷ [];
  exclusions = "/admin" ∷ [];
  ceiling = default_ceiling;
  allow_private_network_for_testing = false;
}

abbrev guard : ScopeGuard
guard = record {
  policy = policy;
  request_count = 0;
  started_at = 1000;
  tokens = 14400000;
  last_refill = 1000;
  violations = [];
  rate_wait_ms = 0;
}

made : new_guard policy 1000 ≡ some guard
unfolding new_guard
made = refl

page_allowed : rules platform policy "https://www.shop.test/" "GET" ≡ none
unfolding rules rules_for host_in_scope excluded excludes
page_allowed = refl

admin_excluded :
    rules platform policy "https://www.shop.test/admin/users" "GET"
    ≡ some Refusal.explicitly_excluded
unfolding rules rules_for host_in_scope excluded excludes
admin_excluded = refl

check_allowed_iff_example :
    (((check platform guard "https://www.shop.test/" "GET" 1500 false).1 ≡ allowed)
      ↔ InScope platform policy "https://www.shop.test/" "GET")
    × (((check platform guard "https://www.shop.test/" "GET" 1500 true).1 ≡ allowed)
        ↔ (InScope platform policy "https://www.shop.test/" "GET" × WithinCeilings guard 1500))
check_allowed_iff_example = check_allowed_iff platform guard "https://www.shop.test/" "GET" 1500

abbrev visits : List Ask
visits =
    record { url = "https://www.shop.test/"; method = "GET"; at = 1200 }
    ∷ record { url = "https://www.shop.test/admin/users"; method = "GET"; at = 1300 }
    ∷ []

requests_capped_example :
    let (end, n) = ask_all platform guard visits in
    (end.request_count ≡ n)
    × (n ≤ 12000)
    × (n * 60000 ≤ 240 * 60000 + (last_time 1000 visits - 1000) * 240)
requests_capped_example =
    requests_capped platform policy 1000 guard visits made (omega arith, (omega arith, tt))

abbrev drained : ScopeGuard
drained = record guard { tokens = 100 }
