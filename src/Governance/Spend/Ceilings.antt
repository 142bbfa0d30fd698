-- ===== src/Governance/Spend/Ceilings.antt =====
-- What the ceilings on spending promise (packages/governance/src/spend.ts).
use vibefy.Prelude.{
  ℕ, ◌+◌, ◌*◌, ◌%◌, ◌≤◌, ◌<◌, Bool, true, false, not, ◌&&◌, List, [], ◌∷◌, ◌++◌, Memᴰ, mem_append→,
  mem_append_left, mem_append_right, leb, ltb, ◌≡◌, ◌≢◌, refl, sym, ap, ◌∙◌, ◌↔◌, ◌⊎◌, inl, inr,
  Bool-cases, arith,
}
use vibefy.Prelude.Time.{Date, day_ms}
use vibefy.Governance.Spend.{
  SpendCeilings, Figure, unreadable, cents, SpendObservation, pause, alert, SpendTrigger,
  daily_ceiling, daily_warning, free_tier_weekly, spend_unreadable, SpendAction, action, when,
  compare_spend, evaluate_figures, evaluate_spend, spend_windows,
}

-- What both figures are, when both can be read.
abbrev pub Read : Figure → Figure → (ℕ → ℕ → Type 0) → Type 0
Read today week P = (t w : ℕ) × (today ≡ cents t) × (week ≡ cents w) × P t w

-- When each trigger is due, in its own terms.
abbrev pub DueAt : SpendTrigger → Figure → Figure → Bool → SpendCeilings → Type 0
DueAt daily_ceiling today week paused c =
    Read today week (λ t w. (paused ≡ false) × (c.global_daily ≤ t))
DueAt daily_warning today week paused c =
    Read today week (λ t w. (paused ≡ false) × (c.global_daily * 4 ≤ t * 5) × (t < c.global_daily))
DueAt free_tier_weekly today week paused c = Read today week (λ t w. c.free_tier_weekly_alert ≤ w)
DueAt spend_unreadable today week paused c = (today ≡ unreadable) ⊎ (week ≡ unreadable)

abbrev pub Due : SpendTrigger → SpendObservation → SpendCeilings → Type 0
Due t o c = DueAt t o.today o.free_tier_this_week o.already_paused c

-- A list of actions has one with the trigger.
abbrev pub Takes : SpendTrigger → List SpendAction → Type 0
Takes t actions = (a : SpendAction) × Memᴰ a actions × (a.trigger ≡ t)

Takes-when :
    (t : SpendTrigger) (test : Bool) (a : SpendAction)
    → Takes t (when test a) ↔ ((test ≡ true) × (a.trigger ≡ t))
Takes-when t true a = ((λ (b, i, e). (refl, only b i e)), λ (_, e). (a, Memᴰ.head refl, e))
  where
    only : (b : SpendAction) → Memᴰ b (a ∷ []) → b.trigger ≡ t → a.trigger ≡ t
    only b (Memᴰ.head q) e = sym (ap (λ (x : SpendAction). x.trigger) q) ∙ e
    only b (Memᴰ.tail i) e = elim i [ ]
Takes-when t false a = ((λ (b, i, _). elim i [ ]), λ (h, _). cc h)

Takes-append :
    (t : SpendTrigger) (xs ys : List SpendAction) → Takes t (xs ++ ys) ↔ (Takes t xs ⊎ Takes t ys)
Takes-append t xs ys = (
  (λ (a, i, e). elim (mem_append→ xs {ys = ys} i) [
    | inl l ↦ inl (a, l, e)
    | inr r ↦ inr (a, r, e)
  ]),
  λ h. elim h [
    | inl (a, l, e) ↦ (a, mem_append_left ys l, e)
    | inr (a, r, e) ↦ (a, mem_append_right xs r, e)
  ],
)

-- The three comparisons as tests.
abbrev test_of : SpendTrigger → ℕ → ℕ → Bool → SpendCeilings → Bool
test_of daily_ceiling today week paused c = not paused && leb c.global_daily today
test_of daily_warning today week paused c =
    not paused && (leb (c.global_daily * 4) (today * 5) && ltb today c.global_daily)
test_of free_tier_weekly today week paused c = leb c.free_tier_weekly_alert week
test_of spend_unreadable today week paused c = false

-- Three tests in a row, each for an action of its own trigger.
Takes-three :
    (t : SpendTrigger) (b₁ b₂ b₃ : Bool) (a₁ a₂ a₃ : SpendAction)
    → Takes t (when b₁ a₁ ++ when b₂ a₂ ++ when b₃ a₃) ↔ (
        ((b₁ ≡ true) × (a₁.trigger ≡ t))
        ⊎ ((b₂ ≡ true) × (a₂.trigger ≡ t))
        ⊎ ((b₃ ≡ true) × (a₃.trigger ≡ t)))
Takes-three t b₁ b₂ b₃ a₁ a₂ a₃ = (
  (λ h. elim ((Takes-append t (when b₁ a₁ ++ when b₂ a₂) (when b₃ a₃)).0 h) [
    | inr third ↦ inr (inr ((Takes-when t b₃ a₃).0 third))
    | inl early ↦ elim ((Takes-append t (when b₁ a₁) (when b₂ a₂)).0 early) [
      | inl first ↦ inl ((Takes-when t b₁ a₁).0 first)
      | inr second ↦ inr (inl ((Takes-when t b₂ a₂).0 second))
    ]
  ]),
  λ h. (Takes-append t (when b₁ a₁ ++ when b₂ a₂) (when b₃ a₃)).1 (elim h [
    | inl first ↦ inl ((Takes-append t _ _).1 (inl ((Takes-when t b₁ a₁).1 first)))
    | inr (inl second) ↦ inl ((Takes-append t _ _).1 (inr ((Takes-when t b₂ a₂).1 second)))
    | inr (inr third) ↦ inr ((Takes-when t b₃ a₃).1 third)
  ]),
)

Takes-compare :
    (t : SpendTrigger) (today week : ℕ) (paused : Bool) (c : SpendCeilings)
    → Takes t (compare_spend today week paused c) ↔ (test_of t today week paused c ≡ true)
unfolding compare_spend
Takes-compare t today week paused c =
    let three =
      Takes-three t _ _ _ (action pause daily_ceiling today c.global_daily)
        (action alert daily_warning today c.global_daily)
        (action alert free_tier_weekly week c.free_tier_weekly_alert) in
    ((λ h. which t (three.0 h)), λ h. three.1 (back t h))
  where
    Sources : SpendTrigger → Type 0
    Sources u =
        ((test_of daily_ceiling today week paused c ≡ true) × (daily_ceiling ≡ u))
        ⊎ ((test_of daily_warning today week paused c ≡ true) × (daily_warning ≡ u))
        ⊎ ((test_of free_tier_weekly today week paused c ≡ true) × (free_tier_weekly ≡ u))

    which : (u : SpendTrigger) → Sources u → test_of u today week paused c ≡ true
    which u (inl (h, e)) = ap (λ x. test_of x today week paused c) (sym e) ∙ h
    which u (inr (inl (h, e))) = ap (λ x. test_of x today week paused c) (sym e) ∙ h
    which u (inr (inr (h, e))) = ap (λ x. test_of x today week paused c) (sym e) ∙ h

    back : (u : SpendTrigger) → test_of u today week paused c ≡ true → Sources u
    back daily_ceiling h = inl (h, refl)
    back daily_warning h = inr (inl (h, refl))
    back free_tier_weekly h = inr (inr (h, refl))
    back spend_unreadable h = cc h

read_iff :
    (t w : ℕ) (b : Bool) {P : ℕ → ℕ → Type 0}
    → (b ≡ true) ↔ P t w
    → (b ≡ true) ↔ Read (cents t) (cents w) P
read_iff t w b {P} test =
    ((λ h. (t, w, refl, refl, test.0 h)), λ (t', w', e, f, p). test.1 (same t' w' e f p))
  where
    same : (t' w' : ℕ) → cents t ≡ cents t' → cents w ≡ cents w' → P t' w' → P t w
    same t' w' e f p = let q : t' ≡ t = cc e in let r : w' ≡ w = cc f in rw (← q, ← r) p

test_iff :
    (u : SpendTrigger) (t w : ℕ) (paused : Bool) (c : SpendCeilings)
    → (test_of u t w paused c ≡ true) ↔ DueAt u (cents t) (cents w) paused c
test_iff daily_ceiling t w paused c = read_iff t w _ (λ h. ground arith, λ h. ground arith)
test_iff daily_warning t w paused c = read_iff t w _ (λ h. ground arith, λ h. ground arith)
test_iff free_tier_weekly t w paused c = read_iff t w _ (λ h. ground arith, λ h. ground arith)
test_iff spend_unreadable t w paused c = (λ h. cc, λ h. elim h [ inl e ↦ cc e | inr e ↦ cc e ])

-- With a figure that cannot be read the only trigger is that one.
blind_iff :
    (u : SpendTrigger) (today week : Figure) (paused : Bool) (c : SpendCeilings)
    → (today ≡ unreadable) ⊎ (week ≡ unreadable)
    → Takes u (action alert spend_unreadable 0 c.global_daily ∷ []) ↔ DueAt u today week paused c
blind_iff u today week paused c blind =
    let one = Takes-when u true (action alert spend_unreadable 0 c.global_daily) in
    ((λ h. ap_due (one.0 h).1), λ h. one.1 (refl, only u h))
  where
    ap_due : spend_unreadable ≡ u → DueAt u today week paused c
    ap_due e = rw (← e) blind

    seen : {P : ℕ → ℕ → Type 0} → Read today week P → ⊥
    seen (t, w, e, f, _) = elim blind [ inl q ↦ cc (q, e) | inr q ↦ cc (q, f) ]

    only : (v : SpendTrigger) → DueAt v today week paused c → spend_unreadable ≡ v
    only daily_ceiling h = absurd (seen h)
    only daily_warning h = absurd (seen h)
    only free_tier_weekly h = absurd (seen h)
    only spend_unreadable h = refl

figures_iff :
    (u : SpendTrigger) (today week : Figure) (paused : Bool) (c : SpendCeilings)
    → Takes u (evaluate_figures today week paused c) ↔ DueAt u today week paused c
figures_iff u unreadable week paused c = blind_iff u unreadable week paused c (inl refl)
figures_iff u (cents t) unreadable paused c = blind_iff u (cents t) unreadable paused c (inr refl)
figures_iff u (cents t) (cents w) paused c =
    let compared = Takes-compare u t w paused c in
    let tested = test_iff u t w paused c in
    ((λ h. tested.0 (compared.0 h)), λ h. compared.1 (tested.1 h))

-- Each trigger is acted on exactly when it is due: the daily ceiling, and the warning at four fifths
-- of it, while spending is not paused; the weekly budget of the free tier always; each of them only
-- when both figures can be read, and otherwise the alert that they cannot.
spend_iff :
    (u : SpendTrigger) (o : SpendObservation) (c : SpendCeilings)
    → Takes u (evaluate_spend o c) ↔ Due u o c
unfolding evaluate_spend
spend_iff u o c = figures_iff u o.today o.free_tier_this_week o.already_paused c

-- Spending that is not paused and has come to four fifths of the daily ceiling, or that cannot be
-- read, never meets silence.
never_silent :
    (o : SpendObservation) (c : SpendCeilings)
    → o.already_paused ≡ false
    → ((t : ℕ) → o.today ≡ cents t → c.global_daily * 4 ≤ t * 5)
    → evaluate_spend o c ≢ []
never_silent o c running high = go o.today o.free_tier_this_week refl refl
  where
    speaks : (u : SpendTrigger) → Due u o c → evaluate_spend o c ≢ []
    speaks u due quiet = let (a, i, _) = (spend_iff u o c).1 due in elim (rw quiet at i) [ ]

    go :
        (today week : Figure)
        → o.today ≡ today
        → o.free_tier_this_week ≡ week
        → evaluate_spend o c ≢ []
    go unreadable week e f = speaks spend_unreadable (inl e)
    go (cents t) unreadable e f = speaks spend_unreadable (inr f)
    go (cents t) (cents w) e f = elim (Bool-cases (ltb t c.global_daily)) [
      | inl below ↦ speaks daily_warning (t, w, e, f, (running, high t e, ground arith))
      | inr above ↦ speaks daily_ceiling (t, w, e, f, (running, ground arith))
    ]

-- The day of the daily ceiling is the 24 hours from the last midnight UTC, and the week is that day's
-- start and the seven days before it.
pub spend_windows_lem :
    (now : Date)
    → 7 * day_ms ≤ now
    → let w = spend_windows now in
      (w.day_start ≤ now)
      × (now < w.day_start + day_ms)
      × (w.day_start % day_ms ≡ 0)
      × (w.week_start + 7 * day_ms ≡ w.day_start)
unfolding spend_windows
spend_windows_lem now late = (omega arith, omega arith, omega arith, omega arith)
