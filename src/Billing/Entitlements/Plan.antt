-- ===== src/Billing/Entitlements/Plan.antt =====
-- Which plan applies (`planFor` and `invoiceStillPaid` of packages/billing/src/entitlements.ts). The
-- rows that `resolvePlan` reads over SQL are the arguments.
use vibefy.Prelude.{
  ℕ, ◌≤◌, ◌<◌, String, Bool, true, false, not, ◌&&◌, Option, none, some, List, [], ◌∷◌, Memᴰ,
  filter, mem_filter→, mem_filter←, mem_cons_elim, ltb, any, any_sound, eq_sound, if◌then◌else◌,
  ◌==◌, text_eq, ◌≡◌, ◌≢◌, refl, sym, ap, ◌∙◌, ◌⊎◌, inl, inr, Bool-cases, and_true, arith,
}
use vibefy.Prelude.Sort.{sort, mem_sort→, mem_sort←, by_rank, HeadLeast, sort-HeadLeast}
use vibefy.Billing.Entitlements.{
  PlanTier, Entitlement, entitlement_for, SubscriptionStatus, trialing, active, past_due, paused,
  is_live, is_free,
}

pub record Subscription : Type 0 where
  pub plan : PlanTier
  pub status : SubscriptionStatus

pub data Because : Type 0 where
  subscription_covers : PlanTier → Because
  report_purchased : Because
  subscription_not_active : SubscriptionStatus → Because
  nothing_applies : Because

pub record ResolvedPlan : Type 0 where
  pub plan : PlanTier
  pub entitlement : Entitlement
  pub subscription_status : Option SubscriptionStatus
  pub because : Because

pub record Invoice : Type 0 where
  pub status : Option String
  pub amount_paid_cents : Option ℕ
  pub amount_refunded_cents : Option ℕ

abbrev cents : Option ℕ → ℕ
cents none = 0
cents (some n) = n

abbrev is_paid : Option String → Bool
is_paid none = false
is_paid (some status) = status == "paid"

unfoldable pub invoice_still_paid : Invoice → Bool
invoice_still_paid invoice =
    is_paid invoice.status
    && ltb (cents invoice.amount_refunded_cents) (cents invoice.amount_paid_cents)

-- `SUBSCRIPTIONS_STILL_IN_FORCE`.
abbrev pub in_force : SubscriptionStatus → Bool
in_force trialing = true
in_force active = true
in_force past_due = true
in_force paused = true
in_force _ = false

abbrev pub rank : SubscriptionStatus → ℕ
rank active = 0
rank trialing = 1
rank _ = 2

abbrev first_row : List Subscription → Option Subscription
first_row [] = none
first_row (x ∷ xs) = some x

-- `live`: the first of the rows in force, sorted by the rank of their status.
unfoldable pub live_of : List Subscription → Option Subscription
live_of subscriptions = first_row (
    sort (by_rank (λ (s : Subscription). rank s.status))
      (filter (λ (s : Subscription). in_force s.status) subscriptions))

abbrev status_of : Option Subscription → Option SubscriptionStatus
status_of none = none
status_of (some s) = some s.status

abbrev covers : Option Subscription → Bool
covers none = false
covers (some s) = is_live (some s.status) && not (is_free s.plan)

abbrev because_free : Option Subscription → Because
because_free none = nothing_applies
because_free (some s) = subscription_not_active s.status

abbrev resolved : PlanTier → Option Subscription → Because → ResolvedPlan
resolved plan live because = record {
  plan = plan;
  entitlement = entitlement_for plan;
  subscription_status = status_of live;
  because = because;
}

abbrev otherwise : Option Subscription → Bool → ResolvedPlan
otherwise live app_has_paid_report =
    if app_has_paid_report
    then resolved PlanTier.one_off live report_purchased
    else resolved PlanTier.free live (because_free live)

abbrev plan_from : Option Subscription → Bool → ResolvedPlan
plan_from none app_has_paid_report = otherwise none app_has_paid_report
plan_from (some s) app_has_paid_report =
    if covers (some s)
    then resolved s.plan (some s) (subscription_covers s.plan)
    else otherwise (some s) app_has_paid_report

unfoldable pub plan_for : List Subscription → Bool → ResolvedPlan
plan_for subscriptions app_has_paid_report = plan_from (live_of subscriptions) app_has_paid_report

-- The condition of the query in `resolvePlan`: some invoice of the application that still stands.
unfoldable pub app_has_paid_report : List Invoice → Bool
app_has_paid_report invoices = any invoice_still_paid invoices

live_of-Least :
    (subs : List Subscription) (s : Subscription)
    → live_of subs ≡ some s
    → Memᴰ s subs
      × (in_force s.status ≡ true)
      × ((t : Subscription)
          → Memᴰ t subs
          → in_force t.status ≡ true
          → rank s.status ≤ rank t.status)
unfolding live_of
live_of-Least subs s h = go (sort by_status kept) refl (sort-HeadLeast by_rank_of kept) h
  where
    by_rank_of : Subscription → ℕ
    by_rank_of t = rank t.status

    by_status : Subscription → Subscription → Bool
    by_status = by_rank by_rank_of

    kept : List Subscription
    kept = filter (λ (t : Subscription). in_force t.status) subs

    go :
        (xs : List Subscription)
        → xs ≡ sort by_status kept
        → HeadLeast by_rank_of xs
        → first_row xs ≡ some s
        → Memᴰ s subs
          × (in_force s.status ≡ true)
          × ((t : Subscription)
              → Memᴰ t subs
              → in_force t.status ≡ true
              → rank s.status ≤ rank t.status)
    go [] q least e = cc e
    go (x ∷ xs) q least e =
        let same : x ≡ s = cc e in
        let (there, forced) =
          mem_filter→ (λ (t : Subscription). in_force t.status) subs
            (mem_sort→ by_status kept (rw (← q) (Memᴰ.head (sym same)))) in
        let bound : (t : Subscription) → Memᴰ t (x ∷ xs) → rank x.status ≤ rank t.status =
          mem_cons_elim (λ (t : Subscription). rank x.status ≤ rank t.status) (omega arith) least in
        (
          there,
          forced,
          λ t i f.
              let le : rank x.status ≤ rank t.status = bound t (
                rw q (
                  mem_sort← by_status
                    (mem_filter← (λ (t : Subscription). in_force t.status) i f))) in
              omega (arith, ap by_rank_of same),
        )

live_of-none :
    (subs : List Subscription) (s : Subscription)
    → live_of subs ≡ none
    → Memᴰ s subs
    → in_force s.status ≡ true
    → ⊥
unfolding live_of
live_of-none subs s h i f =
    go (sort by_status kept) refl h
      (mem_sort← by_status (mem_filter← (λ (t : Subscription). in_force t.status) i f))
  where
    by_status : Subscription → Subscription → Bool
    by_status = by_rank (λ (t : Subscription). rank t.status)

    kept : List Subscription
    kept = filter (λ (t : Subscription). in_force t.status) subs

    go : (xs : List Subscription) → xs ≡ sort by_status kept → first_row xs ≡ none → Memᴰ s xs → ⊥
    go [] q e m = elim m [ ]
    go (x ∷ xs) q e m = cc e

-- An invoice that still stands: paid, and not refunded in full.
abbrev pub Stands : Invoice → Type 0
Stands i = (i.status ≡ some "paid") × (cents i.amount_refunded_cents < cents i.amount_paid_cents)

invoice_still_paid-Stands : (i : Invoice) → invoice_still_paid i ≡ true → Stands i
unfolding invoice_still_paid
invoice_still_paid-Stands i h =
    let (paid, more) = and_true (is_paid i.status) _ h in (status_paid i.status paid, ground arith)
  where
    status_paid : (o : Option String) → is_paid o ≡ true → o ≡ some "paid"
    status_paid none e = cc e
    status_paid (some t) e = ap some (eq_sound t "paid" e)

-- The plan that the two facts give, by cases.
abbrev pub PaidFor : List Subscription → List Invoice → PlanTier → Type 0
PaidFor subs invoices plan =
    ((s : Subscription) × Memᴰ s subs × (is_live (some s.status) ≡ true) × (plan ≡ s.plan))
    ⊎ ((plan ≡ PlanTier.one_off) × ((i : Invoice) × Memᴰ i invoices × Stands i))

-- A plan other than the free one is that of a subscription of the workspace that is active or in its
-- trial, or it is the one-off report of an invoice that was paid and not refunded in full.
pub plan_for-PaidFor :
    (subs : List Subscription) (invoices : List Invoice)
    → (plan_for subs (app_has_paid_report invoices)).plan ≢ PlanTier.free
    → PaidFor subs invoices (plan_for subs (app_has_paid_report invoices)).plan
unfolding plan_for app_has_paid_report
plan_for-PaidFor subs invoices h = go (live_of subs) refl h
  where
    report : Bool
    report = any invoice_still_paid invoices

    bought :
        (o : Option Subscription)
        → (otherwise o report).plan ≢ PlanTier.free
        → PaidFor subs invoices (otherwise o report).plan
    bought o k = elim (Bool-cases report) [
      | inl holds ↦
          let (i, m, e) = any_sound invoice_still_paid invoices holds in
          inr (rw holds, (i, m, invoice_still_paid-Stands i e))
      | inr fails ↦ absurd (k (rw fails))
    ]

    go :
        (o : Option Subscription)
        → live_of subs ≡ o
        → (plan_from o report).plan ≢ PlanTier.free
        → PaidFor subs invoices (plan_from o report).plan
    go none e k = bought none k
    go (some s) e k = elim (Bool-cases (covers (some s))) [
      | inl holds ↦ rw holds (
          inl (s, (live_of-Least subs s e).0, (and_true (is_live (some s.status)) _ holds).0, refl))
      | inr fails ↦ rw fails (bought (some s) (rw fails at k))
    ]

-- If one subscription of the workspace is active, for a plan other than the free one, and it is the
-- only one in force, then its plan and its status apply, whatever else is in the list, in whatever
-- order, and whatever has been bought.
active_subscription_covers :
    (subs : List Subscription) (report : Bool) (s : Subscription)
    → Memᴰ s subs
    → is_live (some s.status) ≡ true
    → is_free s.plan ≡ false
    → ((t : Subscription) → Memᴰ t subs → in_force t.status ≡ true → t ≡ s)
    → ((plan_for subs report).plan ≡ s.plan)
      × ((plan_for subs report).subscription_status ≡ some s.status)
unfolding plan_for
active_subscription_covers subs report s i live priced only = go (live_of subs) refl
  where
    forced : (status : SubscriptionStatus) → is_live (some status) ≡ true → in_force status ≡ true
    forced status h = ground arith

    go :
        (o : Option Subscription)
        → live_of subs ≡ o
        → ((plan_from o report).plan ≡ s.plan)
          × ((plan_from o report).subscription_status ≡ some s.status)
    go none e = absurd (live_of-none subs s e i (forced s.status live))
    go (some t) e =
        let (there, f, _) = live_of-Least subs t e in
        let same : t ≡ s = only t there f in
        let covered : covers (some s) ≡ true = rw (live, priced) in
        let answer : (plan_from (some s) report).plan ≡ s.plan = rw covered in
        let status : (plan_from (some s) report).subscription_status ≡ some s.status = rw covered in
        (
          ap (λ x. (plan_from (some x) report).plan) same ∙ answer,
          ap (λ x. (plan_from (some x) report).subscription_status) same ∙ status,
        )
