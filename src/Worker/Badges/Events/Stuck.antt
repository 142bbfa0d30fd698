-- ===== src/Worker/Badges/Events/Stuck.antt =====
-- A badge that no sweep puts up again (apps/worker/src/badge.ts).
use vibefy.Prelude.{
  ℕ, Bool, false, Option, none, eq_sound, ◌&&◌, Bool-cases, arith, true, some, List, [], ◌∷◌,
  text_eq, eq_refl, ◌≡◌, ◌≢◌, refl, sym, ap, ◌∙◌, inl, inr, Memᴰ, mem_map→, mem_map←,
}
use vibefy.Monitoring.Liveness.{BadgeStatus}
use vibefy.Worker.Badges.Types.{
  Suspension, lapsed, withdrawn, did_not_respond, another_reason, BadgeRow, Tables,
}
use vibefy.Worker.Badges.Lifecycle.{is_active, is_suspended, suspend, restore}
use vibefy.Prelude.Table.{set_if, set_if-field, update_where}
use vibefy.Prelude.Text.{codes_eq}
use vibefy.Worker.Badges.Candidates.{stands_for}
use vibefy.Worker.Badges.Issue.{Platform, Rules}
use vibefy.Worker.Badges.Issue.Gate.{sweep-IsEarned, sweep-keeps}
use vibefy.Worker.Badges.Lifecycle.Active.{
  swept, swept-public_id, swept-app_id, sweep-swept, sweep_leaves_others,
}
use vibefy.Worker.Badges.Events.{
  Event, Decision, decided, is_outage, is_named, may_suspend, may_recover, issuance, lifecycle,
  suspends, recovers, reviews, others_write, step, run,
}

-- Suspended, and neither for a withdrawn authorisation nor for an outage.
abbrev pub IsHeld : BadgeRow → Type 0
IsHeld b =
    (b.status ≡ BadgeStatus.suspended)
    × (b.suspension_reason ≢ some withdrawn)
    × (b.suspension_reason ≢ some did_not_respond)

-- An update that leaves the public name and the application of every row.
module _ (set : BadgeRow → BadgeRow) (holds : BadgeRow → Bool)
    (named : (b : BadgeRow) → (set b).public_id ≡ b.public_id)
    (placed : (b : BadgeRow) → (set b).app_id ≡ b.app_id) where
  update-keeps :
      (rows : List BadgeRow) (b : BadgeRow)
      → holds b ≡ false
      → Memᴰ b rows
      → Memᴰ b (update_where set holds rows)
  update-keeps rows b passes m =
      let same : set_if set holds b ≡ b = rw passes refl in
      rw same at (mem_map← (set_if set holds) m)

  update-adds_none :
      (rows : List BadgeRow) (a : BadgeRow)
      → Memᴰ a (update_where set holds rows)
      → (o : BadgeRow) × Memᴰ o rows × (o.public_id ≡ a.public_id) × (o.app_id ≡ a.app_id)
  update-adds_none rows a n =
      let (o, there, made) = mem_map→ (set_if set holds) rows n in
      (
        o,
        there,
        sym (set_if-field (λ (x : BadgeRow). x.public_id) set holds o named)
            ∙ ap (λ (x : BadgeRow). x.public_id) (sym made),
        sym (set_if-field (λ (x : BadgeRow). x.app_id) set holds o placed)
            ∙ ap (λ (x : BadgeRow). x.app_id) (sym made),
      )

decided-public_id :
    (d : Decision) (now : ℕ) (b : BadgeRow) → (decided d now b).public_id ≡ b.public_id
decided-public_id d now b = ground arith

decided-app_id : (d : Decision) (now : ℕ) (b : BadgeRow) → (decided d now b).app_id ≡ b.app_id
decided-app_id d now b = ground arith

right_false : (a : Bool) {b : Bool} → b ≡ false → (a && b) ≡ false
right_false a h = ground arith

held_is_not_suspended_again :
    (chosen : BadgeRow → Bool) (b : BadgeRow) → IsHeld b → may_suspend chosen b ≡ false
held_is_not_suspended_again chosen b held = right_false (chosen b) (ap is_active held.0)

held_does_not_recover :
    (chosen : BadgeRow → Bool) (b : BadgeRow) → IsHeld b → may_recover chosen b ≡ false
held_does_not_recover chosen b (_, _, reason) =
    right_false (chosen b)
      (right_false (is_suspended b.status) (no_outage b.suspension_reason reason))
  where
    no_outage : (o : Option Suspension) → o ≢ some did_not_respond → is_outage o ≡ false
    no_outage none h = refl
    no_outage (some lapsed) h = refl
    no_outage (some withdrawn) h = refl
    no_outage (some (another_reason why)) h = refl
    no_outage (some did_not_respond) h = absurd (h refl)

module _ (platform : Platform) (rules : Rules) where
  -- No reviewer decides on the badge.
  abbrev pub IsLeft : BadgeRow → List (Event platform rules) → Type 0
  IsLeft b [] = Unit
  IsLeft b (reviews id _ _ ∷ es) = (b.public_id ≢ id) × IsLeft b es
  IsLeft b (_ ∷ es) = IsLeft b es

  IsLeft-cons :
      (b : BadgeRow) (e : Event platform rules) (es : List (Event platform rules))
      → IsLeft b (e ∷ es)
      → IsLeft b (e ∷ []) × IsLeft b es
  IsLeft-cons b (reviews id d now) es (here, later) = ((here, tt), later)
  IsLeft-cons b (issuance _ _ _ _ _) es h = (tt, h)
  IsLeft-cons b (lifecycle _ _) es h = (tt, h)
  IsLeft-cons b (suspends _ _ _) es h = (tt, h)
  IsLeft-cons b (recovers _) es h = (tt, h)
  IsLeft-cons b (others_write _) es h = (tt, h)

  step-keeps :
      (e : Event platform rules) (tables : Tables) (b : BadgeRow)
      → IsHeld b
      → IsLeft b (e ∷ [])
      → Memᴰ b tables.badges
      → Memᴰ b (step platform rules e tables).badges
  step-keeps (issuance is_authorised licence key fresh moment) tables b held left m =
      sweep-keeps platform rules is_authorised licence key fresh moment tables b m
  step-keeps (others_write other) tables b held left m = m
  step-keeps (suspends chosen reason now) tables b held left m =
      update-keeps (suspend reason now) (may_suspend chosen) (λ x. refl) (λ x. refl) tables.badges b
        (held_is_not_suspended_again chosen b held) m
  step-keeps (recovers chosen) tables b held left m =
      update-keeps restore (may_recover chosen) (λ x. refl) (λ x. refl) tables.badges b
        (held_does_not_recover chosen b held) m
  step-keeps (reviews id d now) tables b held (other, _) m =
      update-keeps (decided d now) (is_named id) (decided-public_id d now) (decided-app_id d now)
        tables.badges b
        (elim (Bool-cases (is_named id b)) [
          | inl same ↦ absurd (other (eq_sound b.public_id id same))
          | inr differs ↦ differs
        ])
        m
  step-keeps (lifecycle is_authorised at) tables b (suspended, reason, _) left m =
      let same =
        sweep_leaves_others is_authorised tables at b (λ active. cc (active, suspended))
          (inr reason) in
      rw (sweep-swept is_authorised tables at)
        (rw same at (mem_map← (swept is_authorised tables at) m))

  -- The application's badges after a step, by their public names, are ones that it had before.
  step-adds_none :
      (e : Event platform rules) (tables : Tables) (b : BadgeRow)
      → IsHeld b
      → Memᴰ b tables.badges
      → (a : BadgeRow) → Memᴰ a (step platform rules e tables).badges
      → a.app_id ≡ b.app_id
      → (o : BadgeRow) × Memᴰ o tables.badges × (o.public_id ≡ a.public_id) × (o.app_id ≡ a.app_id)
  step-adds_none (others_write other) tables b held m a n same = (a, n, refl, refl)
  step-adds_none (suspends chosen reason now) tables b held m a n same =
      update-adds_none (suspend reason now) (may_suspend chosen) (λ x. refl) (λ x. refl)
        tables.badges a n
  step-adds_none (recovers chosen) tables b held m a n same =
      update-adds_none restore (may_recover chosen) (λ x. refl) (λ x. refl) tables.badges a n
  step-adds_none (reviews id d now) tables b held m a n same =
      update-adds_none (decided d now) (is_named id) (decided-public_id d now)
        (decided-app_id d now) tables.badges a n
  step-adds_none (lifecycle is_authorised at) tables b held m a n same =
      let (o, there, made) =
        mem_map→ (swept is_authorised tables at) tables.badges
          (rw (sweep-swept is_authorised tables at) at n) in
      (
        o,
        there,
        sym (swept-public_id is_authorised tables at o)
            ∙ ap (λ (x : BadgeRow). x.public_id) (sym made),
        sym (swept-app_id is_authorised tables at o) ∙ ap (λ (x : BadgeRow). x.app_id) (sym made),
      )
  step-adds_none (issuance is_authorised licence key fresh moment) tables b held m a n same =
      elim (sweep-IsEarned platform rules is_authorised licence key fresh moment tables a n) [
        | inl before ↦ (a, before, refl, refl)
        | inr ((_, _, _, _, _, _, _, _, _, _, _, vacant), _, _, _, _, _, _) ↦
            let standing : stands_for a.app_id b ≡ true =
              rw (same, eq_refl b.app_id, held.0) refl in
            cc (standing, vacant b m)
      ]

  -- A badge that was suspended for a lapsed subscription, or for anything but a withdrawn
  -- authorisation or an outage, and on which no reviewer decides, stays in the table as it is through
  -- every run of the sweeps, the suspensions and recoveries of the monitoring, and whatever is written
  -- to the other tables, a new subscription and a new assessment among it; and its application is
  -- issued no other badge in all that time.
  pub suspended_badge_is_stuck :
      (es : List (Event platform rules)) (tables : Tables) (b : BadgeRow)
      → IsHeld b
      → IsLeft b es
      → Memᴰ b tables.badges
      → Memᴰ b (run platform rules es tables).badges
        × ((a : BadgeRow)
            → Memᴰ a (run platform rules es tables).badges
            → a.app_id ≡ b.app_id
            → (o : BadgeRow) × Memᴰ o tables.badges
              × (o.public_id ≡ a.public_id)
              × (o.app_id ≡ a.app_id))
  unfolding run
  suspended_badge_is_stuck [] tables b held left m = (m, λ a n same. (a, n, refl, refl))
  suspended_badge_is_stuck (e ∷ es) tables b held left m =
      let (here, later) = IsLeft-cons b e es left in
      let kept = step-keeps e tables b held here m in
      let (last, others) =
        suspended_badge_is_stuck es (step platform rules e tables) b held later kept in
      (
        last,
        λ a n same.
            let (o, there, named, placed) = others a n same in
            let (p, before, named', placed') =
              step-adds_none e tables b held m o there (placed ∙ same) in
            (p, before, named' ∙ named, placed' ∙ placed),
      )
