-- ===== src/Worker/Badges/Lifecycle/Active.antt =====
-- Which badges are active after the lifecycle sweep (apps/worker/src/badge.ts).
use vibefy.Prelude.{
  ℕ, ◌<◌, String, Bool, true, false, not, ◌&&◌, Option, some, List, [], ◌∷◌, map, any, leb, ltb,
  ltb→lt, lt→ltb, ◌≡◌, ◌≢◌, ◌↔◌, ◌⊎◌, refl, sym, ap, ◌∙◌, inl, inr, Bool-cases, and_true, Memᴰ,
  any_sound, any_complete, none_such, any_none, arith,
}
use vibefy.Prelude.Table.{set_if, set_if-set, set_if-field}
use vibefy.Monitoring.Liveness.{BadgeStatus}
use vibefy.Worker.Badges.Types.{Suspension, lapsed, withdrawn, BadgeRow, Tables}
use vibefy.Billing.Webhooks.Types.{SubscriptionRow, InvoiceRow}
use vibefy.Worker.Badges.Candidates.{is_subscribed}
use vibefy.Worker.Badges.Lifecycle.{
  still_paid, stopped_for, is_active, is_suspended, is_withdrawn, is_over, expire, suspend, restore,
  Moments, is_unpaid, is_lapsed, is_unauthorised, may_return, sweep_badge_lifecycle,
}

map-map : {A : Type 0} (f g : A → A) (xs : List A) → map f (map g xs) ≡ map (λ (a : A). f (g a)) xs
map-map f g [] = refl
map-map f g (x ∷ xs) = ap (λ (ys : List _). f (g x) ∷ ys) (map-map f g xs)

flip_true : (a : Bool) → not a ≡ true → a ≡ false
flip_true true h = cc h
flip_true false h = refl

and_false : (a : Bool) → (a && false) ≡ false
and_false true = refl
and_false false = refl

flip_false : (a : Bool) → not a ≡ false → a ≡ true
flip_false true h = refl
flip_false false h = cc h

not_over : (e n : ℕ) → leb e n ≡ false → n < e
not_over e n h = ground (arith, h)

is_over_false : (e n : ℕ) → n < e → leb e n ≡ false
is_over_false e n h = ground (arith, h)

active_only : (s : BadgeStatus) → is_active s ≡ true → s ≡ BadgeStatus.active
active_only BadgeStatus.active h = refl
active_only _ h = cc h

suspended_only : (s : BadgeStatus) → is_suspended s ≡ true → s ≡ BadgeStatus.suspended
suspended_only BadgeStatus.suspended h = refl
suspended_only _ h = cc h

withdrawn_only : (r : Option Suspension) → is_withdrawn r ≡ true → r ≡ some withdrawn
withdrawn_only (some withdrawn) h = refl
withdrawn_only _ h = cc h

module _ (is_authorised : String → Bool) (tables : Tables) where
  -- What the four statements make of one badge.
  abbrev pub swept : Moments → BadgeRow → BadgeRow
  swept at b = set_if restore (may_return is_authorised tables at.return) (
      set_if (suspend withdrawn at.withdrawal) (is_unauthorised is_authorised tables) (
        set_if (suspend lapsed at.lapse) (is_lapsed is_authorised tables)
          (set_if expire (is_over at.expiry) b)))

  pub sweep-swept :
      (at : Moments)
      → (sweep_badge_lifecycle is_authorised tables at).0 ≡ map (swept at) tables.badges
  unfolding sweep_badge_lifecycle
  sweep-swept at =
      ap (map (set_if restore (may_return is_authorised tables at.return))) (
        ap (map (set_if (suspend withdrawn at.withdrawal) (is_unauthorised is_authorised tables))) (
          map-map (set_if (suspend lapsed at.lapse) (is_lapsed is_authorised tables))
            (set_if expire (is_over at.expiry)) tables.badges)
        ∙ map-map (set_if (suspend withdrawn at.withdrawal) (is_unauthorised is_authorised tables))
            _ tables.badges)
      ∙ map-map (set_if restore (may_return is_authorised tables at.return)) _ tables.badges

  module _ (at : Moments) (b : BadgeRow) where
    -- A field that no statement sets.
    swept-field :
        {B : Type 0} (f : BadgeRow → B)
        → ((x : BadgeRow) → f (expire x) ≡ f x)
        → ((why : Suspension) (t : ℕ) (x : BadgeRow) → f (suspend why t x) ≡ f x)
        → ((x : BadgeRow) → f (restore x) ≡ f x)
        → f (swept at b) ≡ f b
    swept-field f e s r =
        set_if-field f restore (may_return is_authorised tables at.return) _ r
        ∙ set_if-field f (suspend withdrawn at.withdrawal) (is_unauthorised is_authorised tables) _
            (s withdrawn at.withdrawal)
        ∙ set_if-field f (suspend lapsed at.lapse) (is_lapsed is_authorised tables) _
            (s lapsed at.lapse)
        ∙ set_if-field f expire (is_over at.expiry) b e

    pub swept-public_id : (swept at b).public_id ≡ b.public_id
    swept-public_id =
        swept-field (λ (x : BadgeRow). x.public_id) (λ x. refl) (λ w t x. refl) (λ x. refl)

    pub swept-app_id : (swept at b).app_id ≡ b.app_id
    swept-app_id = swept-field (λ (x : BadgeRow). x.app_id) (λ x. refl) (λ w t x. refl) (λ x. refl)

    over-swept : is_over at.expiry b ≡ true → swept at b ≡ expire b
    over-swept over = rw over refl

    lapsed-swept :
        is_over at.expiry b ≡ false
        → is_lapsed is_authorised tables b ≡ true
        → swept at b ≡ suspend lapsed at.lapse b
    lapsed-swept running unpaid = rw (running, unpaid) refl

    withdrawn-swept :
        is_over at.expiry b ≡ false
        → is_lapsed is_authorised tables b ≡ false
        → is_unauthorised is_authorised tables b ≡ true
        → swept at b ≡ suspend withdrawn at.withdrawal b
    withdrawn-swept running paid unauthorised =
        let (_, not_allowed) =
          and_true (is_active b.status) (not (is_authorised b.app_id)) unauthorised in
        rw (running, paid, unauthorised, flip_true (is_authorised b.app_id) not_allowed, and_false)
          refl

    returned-swept :
        is_over at.expiry b ≡ false
        → is_lapsed is_authorised tables b ≡ false
        → is_unauthorised is_authorised tables b ≡ false
        → swept at b ≡ set_if restore (may_return is_authorised tables at.return) b
    returned-swept running paid allowed = rw (running, paid, allowed) refl

    stays-swept :
        is_over at.expiry b ≡ false
        → is_lapsed is_authorised tables b ≡ false
        → is_unauthorised is_authorised tables b ≡ false
        → may_return is_authorised tables at.return b ≡ false
        → swept at b ≡ b
    stays-swept running paid allowed stays = rw (running, paid, allowed, stays) refl

    -- Nothing that paid for the badge has stopped, or something else pays for it.
    abbrev pub IsCovered : Type 0
    IsCovered =
        ((s : SubscriptionRow)
          → Memᴰ s tables.subscriptions
          → stopped_for b.organisation_id s ≡ false)
        ⊎ (((s : SubscriptionRow) × Memᴰ s tables.subscriptions
              × (is_subscribed b.organisation_id s ≡ true))
            ⊎ ((i : InvoiceRow) × Memᴰ i tables.invoices × (still_paid b.app_id i ≡ true)))

    unpaid-IsCovered : is_unpaid is_authorised tables b ≡ false → IsCovered
    unpaid-IsCovered h =
        elim (Bool-cases (any (stopped_for b.organisation_id) tables.subscriptions)) [
          | inr none_stopped ↦
              inl (none_such (stopped_for b.organisation_id) tables.subscriptions none_stopped)
          | inl stopped ↦
              elim (Bool-cases (any (is_subscribed b.organisation_id) tables.subscriptions)) [
                | inl covered ↦
                    inr (
                      inl
                        (any_sound (is_subscribed b.organisation_id) tables.subscriptions covered))
                | inr uncovered ↦ elim (Bool-cases (any (still_paid b.app_id) tables.invoices)) [
                  | inl paid ↦ inr (inr (any_sound (still_paid b.app_id) tables.invoices paid))
                  | inr unpaid ↦ cc (rw (stopped, uncovered, unpaid) at h)
                ]
              ]
        ]

    IsCovered-unpaid : IsCovered → is_unpaid is_authorised tables b ≡ false
    IsCovered-unpaid (inl running) =
        rw (any_none (stopped_for b.organisation_id) tables.subscriptions running) refl
    IsCovered-unpaid (inr (inl (s, m, holds))) =
        rw (any_complete (is_subscribed b.organisation_id) m holds)
          (and_false (any (stopped_for b.organisation_id) tables.subscriptions))
    IsCovered-unpaid (inr (inr (i, m, holds))) =
        rw (any_complete (still_paid b.app_id) m holds, and_false, and_false) refl

    -- An active badge that the sweep leaves so.
    abbrev pub Survives : Type 0
    Survives =
        (b.status ≡ BadgeStatus.active)
        × (at.expiry < b.expires_at)
        × IsCovered
        × (is_authorised b.app_id ≡ true)

    -- A suspended one that it puts up again.
    abbrev pub Returns : Type 0
    Returns =
        (b.status ≡ BadgeStatus.suspended)
        × (b.suspension_reason ≡ some withdrawn)
        × (at.return < b.expires_at)
        × (is_authorised b.app_id ≡ true)

    may_return-Returns : may_return is_authorised tables at.return b ≡ true → Returns
    may_return-Returns h =
        let (s, h1) = and_true (is_suspended b.status) _ h in
        let (w, h2) = and_true (is_withdrawn b.suspension_reason) _ h1 in
        let (lt, a) = and_true (ltb at.return b.expires_at) (is_authorised b.app_id) h2 in
        (
          suspended_only b.status s,
          withdrawn_only b.suspension_reason w,
          ltb→lt at.return b.expires_at lt,
          a,
        )

    untouched-Survives :
        is_over at.expiry b ≡ false
        → is_lapsed is_authorised tables b ≡ false
        → is_unauthorised is_authorised tables b ≡ false
        → b.status ≡ BadgeStatus.active
        → Survives
    untouched-Survives running paid allowed st = (
      st,
      not_over b.expires_at at.expiry (rw st at running),
      unpaid-IsCovered (rw st at paid),
      flip_false (is_authorised b.app_id) (rw st at allowed),
    )

    Survives-swept : Survives → (swept at b).status ≡ BadgeStatus.active
    Survives-swept (st, lt, covered, allowed) =
        ap (λ (r : BadgeRow). r.status)
          (stays-swept (rw (st, is_over_false b.expires_at at.expiry lt) refl)
            (rw (st, IsCovered-unpaid covered) refl) (rw (st, allowed) refl) (rw st refl))
        ∙ st

    Returns-swept : Returns → (swept at b).status ≡ BadgeStatus.active
    Returns-swept (st, why, lt, allowed) =
        ap (λ (r : BadgeRow). r.status)
          (returned-swept (rw st refl) (rw st refl) (rw st refl)
            ∙ set_if-set restore (may_return is_authorised tables at.return) b
                (rw (st, why, lt→ltb at.return b.expires_at lt, allowed) refl))

    active-swept : (swept at b).status ≡ BadgeStatus.active → Survives ⊎ Returns
    active-swept now = elim (Bool-cases (is_over at.expiry b)) [
      | inl over ↦ cc (now, ap (λ (r : BadgeRow). r.status) (over-swept over))
      | inr running ↦ elim (Bool-cases (is_lapsed is_authorised tables b)) [
        | inl unpaid ↦ cc (now, ap (λ (r : BadgeRow). r.status) (lapsed-swept running unpaid))
        | inr paid ↦ elim (Bool-cases (is_unauthorised is_authorised tables b)) [
          | inl stopped ↦
              cc (now, ap (λ (r : BadgeRow). r.status) (withdrawn-swept running paid stopped))
          | inr allowed ↦ elim (Bool-cases (may_return is_authorised tables at.return b)) [
            | inl returns ↦ inr (may_return-Returns returns)
            | inr stays ↦ inl (
                untouched-Survives running paid allowed (
                  sym (ap (λ (r : BadgeRow). r.status) (stays-swept running paid allowed stays))
                  ∙ now))
          ]
        ]
      ]
    ]

  -- The sweep works on each badge by itself, and one is active after it in two cases only: it was
  -- active, its term was not over, its application is authorised, and no subscription that paid for it
  -- has stopped with nothing in its place; or it was suspended for a withdrawn authorisation, its
  -- term is not over, and the application is authorised again.
  pub sweep_active_iff :
      (at : Moments)
      → ((sweep_badge_lifecycle is_authorised tables at).0 ≡ map (swept at) tables.badges)
        × ((b : BadgeRow)
            → ((swept at b).status ≡ BadgeStatus.active) ↔ (Survives at b ⊎ Returns at b))
  sweep_active_iff at = (
    sweep-swept at,
    λ b. (
      active-swept at b,
      λ h. elim h [ inl stays ↦ Survives-swept at b stays | inr back ↦ Returns-swept at b back ],
    ),
  )

  -- A badge that is revoked or expired, and one that is suspended for any reason but a withdrawn
  -- authorisation, a reviewer's, an outage's or a lapsed subscription's, is as it was after the sweep,
  -- whatever the moment.
  pub sweep_leaves_others :
      (at : Moments) (b : BadgeRow)
      → b.status ≢ BadgeStatus.active
      → ((b.status ≢ BadgeStatus.suspended) ⊎ (b.suspension_reason ≢ some withdrawn))
      → swept at b ≡ b
  sweep_leaves_others at b still other =
      stays-swept at b (rw inactive refl) (rw inactive refl) (rw inactive refl) (elim other [
        | inl standing ↦
            rw (false_unless (is_suspended b.status) (λ h. standing (suspended_only b.status h)))
              refl
        | inr reason ↦
            rw
              (false_unless (is_withdrawn b.suspension_reason)
                (λ h. reason (withdrawn_only b.suspension_reason h)))
              (and_false (is_suspended b.status))
      ])
    where
      false_unless : (a : Bool) → a ≢ true → a ≡ false
      false_unless true fails = absurd (fails refl)
      false_unless false fails = refl

      inactive : is_active b.status ≡ false
      inactive = false_unless (is_active b.status) (λ h. still (active_only b.status h))
