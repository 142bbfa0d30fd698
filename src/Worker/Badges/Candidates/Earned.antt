-- ===== src/Worker/Badges/Candidates/Earned.antt =====
-- What is true of an application that is due a badge (apps/worker/src/badge.ts).
use vibefy.Prelude.{
  ℕ, String, Bool, true, false, Option, none, some, List, [], ◌∷◌, find?, filter, any, text_eq, ◌≡◌,
  ◌≢◌, ◌⊎◌, refl, ap, inl, inr, Bool-cases, Memᴰ, none_such, mem_take→, mem_append→, mem_filter→,
  Option-cases, arith,
}
use vibefy.Prelude.Text.{Text}
use vibefy.Prelude.Sort.{sort, mem_sort→}
use vibefy.Billing.Webhooks.Types.{SubscriptionRow}
use vibefy.Worker.Badges.Types.{
  AssessmentStatus, approved, AssessmentRow, AppRow, OrganisationRow, ConsentRow, BadgeRow, Tables,
  IssuanceCandidate,
}
use vibefy.Worker.Badges.Candidates.{
  is_approved, accepts_licence, acceptance, carries_badge, plan_in_force, is_subscribed,
  may_carry_badge, stands_for, meets, with_url, joined, app_named, organisation_named, candidate_of,
  candidates_from, find_issuance_candidates, first, later, active_first, is_some, earlier,
}

first-mem : {A : Type 0} {a : A} (xs : List A) → first xs ≡ some a → Memᴰ a xs
first-mem [] h = cc h
first-mem (x ∷ xs) h = Memᴰ.head (cc h)

module _ (is_authorised : String → Bool) (licence : String) (tables : Tables) where
  -- The rules that a badge is issued under, of an assessment, an application, an organisation, a consent.
  abbrev pub IsEarned : String → String → String → String → Type 0
  IsEarned assessment app organisation consent =
      (a : AssessmentRow) × Memᴰ a tables.assessments
      × (a.id ≡ assessment)
      × (a.app_id ≡ app)
      × (a.organisation_id ≡ organisation)
      × (a.status ≡ approved)
      × (a.certification_eligible ≡ true)
      × (a.overall_score ≢ none)
      × (is_authorised app ≡ true)
      × ((c : ConsentRow) × Memᴰ c tables.consents
          × (c.id ≡ consent)
          × (accepts_licence licence organisation c ≡ true))
      × (((s : SubscriptionRow) × Memᴰ s tables.subscriptions
            × (carries_badge organisation s ≡ true))
          ⊎ ((s : SubscriptionRow)
              → Memᴰ s tables.subscriptions
              → is_subscribed organisation s ≡ false))
      × ((b : BadgeRow) → Memᴰ b tables.badges → stands_for app b ≡ false)

  acceptance-mem :
      (organisation : String) {c : ConsentRow}
      → acceptance licence organisation tables.consents ≡ some c
      → Memᴰ c tables.consents × (accepts_licence licence organisation c ≡ true)
  acceptance-mem organisation {c} h =
      mem_filter→ (accepts_licence licence organisation) tables.consents (
        mem_sort→ later (filter (accepts_licence licence organisation) tables.consents) (
          first-mem (sort later (filter (accepts_licence licence organisation) tables.consents)) h))

  plan-mem :
      (organisation : String)
      → is_some (plan_in_force organisation tables.subscriptions) ≡ true
      → (s : SubscriptionRow) × Memᴰ s tables.subscriptions × (carries_badge organisation s ≡ true)
  plan-mem organisation h =
      let carrying = filter (carries_badge organisation) tables.subscriptions in
      elim (Option-cases (first (sort active_first carrying))) [
        | inl nothing ↦ cc (rw nothing at h)
        | inr (s, found) ↦
            let (m, holds) =
              mem_filter→ (carries_badge organisation) tables.subscriptions
                (mem_sort→ active_first carrying (first-mem (sort active_first carrying) found)) in
            (s, m, holds)
      ]

  may_carry-why :
      (organisation : String)
      → may_carry_badge organisation tables.subscriptions ≡ true
      → ((s : SubscriptionRow) × Memᴰ s tables.subscriptions
          × (carries_badge organisation s ≡ true))
        ⊎ ((s : SubscriptionRow)
            → Memᴰ s tables.subscriptions
            → is_subscribed organisation s ≡ false)
  may_carry-why organisation h =
      elim (Bool-cases (is_some (plan_in_force organisation tables.subscriptions))) [
        | inl planned ↦ inl (plan-mem organisation planned)
        | inr unplanned ↦ inr (
            none_such (is_subscribed organisation) tables.subscriptions
              (ground (arith, h, unplanned)))
      ]

  -- What a row of the query takes from its assessment and its consent.
  abbrev Comes : AssessmentRow → ConsentRow → IssuanceCandidate → Type 0
  Comes a k c =
      (c.assessment_id ≡ a.id)
      × (c.app_id ≡ a.app_id)
      × (c.organisation_id ≡ a.organisation_id)
      × (c.consent_id ≡ k.id)

  with_url-mem :
      (a : AssessmentRow) (n : ℕ) (app : AppRow) (url : Option Text) (o : OrganisationRow)
      (k : ConsentRow) (c : IssuanceCandidate)
      → Memᴰ c (with_url is_authorised licence tables a n app url o k)
      → Comes a k c
  with_url-mem a n app none o k c m = elim m [ ]
  with_url-mem a n app (some url) o k c (Memᴰ.tail m) = elim m [ ]
  with_url-mem a n app (some url) o k c (Memᴰ.head q) = (
    ap (λ (x : IssuanceCandidate). x.assessment_id) q,
    ap (λ (x : IssuanceCandidate). x.app_id) q,
    ap (λ (x : IssuanceCandidate). x.organisation_id) q,
    ap (λ (x : IssuanceCandidate). x.consent_id) q,
  )

  joined-mem :
      (a : AssessmentRow) (score : Option ℕ) (app : Option AppRow) (o : Option OrganisationRow)
      (consent : Option ConsentRow) (c : IssuanceCandidate)
      → Memᴰ c (joined is_authorised licence tables a score app o consent)
      → (k : ConsentRow) × (consent ≡ some k) × (score ≢ none) × Comes a k c
  joined-mem a (some n) (some app) (some o) (some k) c m =
      (k, refl, (λ h. cc h), with_url-mem a n app app.primary_url o k c m)
  joined-mem a none _ _ _ c m = elim m [ ]
  joined-mem a (some n) none _ _ c m = elim m [ ]
  joined-mem a (some n) (some app) none _ c m = elim m [ ]
  joined-mem a (some n) (some app) (some o) none c m = elim m [ ]

  meets-all :
      (a : AssessmentRow)
      → meets is_authorised licence tables a ≡ true
      → (is_approved a.status ≡ true)
        × (a.certification_eligible ≡ true)
        × (is_authorised a.app_id ≡ true)
        × (may_carry_badge a.organisation_id tables.subscriptions ≡ true)
        × (any (stands_for a.app_id) tables.badges ≡ false)
  meets-all a h = ground (arith, h)

  approved_only : (s : AssessmentStatus) → is_approved s ≡ true → s ≡ approved
  approved_only approved h = refl
  approved_only (AssessmentStatus.other name) h = cc h

  candidate_of-IsEarned :
      (a : AssessmentRow) (c : IssuanceCandidate)
      → Memᴰ a tables.assessments
      → Memᴰ c (candidate_of is_authorised licence tables a)
      → IsEarned c.assessment_id c.app_id c.organisation_id c.consent_id
  candidate_of-IsEarned a c there m = elim (Bool-cases (meets is_authorised licence tables a)) [
    | inr fails ↦ elim (rw fails at m) [ ]
    | inl holds ↦
        let (good, eligible, authorised, carries, free_to) = meets-all a holds in
        let (k, found, scored, (e1, e2, e3, e4)) =
          joined-mem a a.overall_score (find? (app_named a.app_id) tables.apps)
            (find? (organisation_named a.organisation_id) tables.organisations)
            (acceptance licence a.organisation_id tables.consents) c (rw holds at m) in
        let (listed, accepted) = acceptance-mem a.organisation_id found in
        rw (e1, e2, e3, e4)
          (
            a,
            there,
            refl,
            refl,
            refl,
            approved_only a.status good,
            eligible,
            scored,
            authorised,
            (k, listed, refl, accepted),
            may_carry-why a.organisation_id carries,
            none_such (stands_for a.app_id) tables.badges free_to,
          )
  ]

  candidates_from-IsEarned :
      (rows : List AssessmentRow) (c : IssuanceCandidate)
      → ((a : AssessmentRow) → Memᴰ a rows → Memᴰ a tables.assessments)
      → Memᴰ c (candidates_from is_authorised licence tables rows)
      → IsEarned c.assessment_id c.app_id c.organisation_id c.consent_id
  unfolding candidates_from
  candidates_from-IsEarned [] c within m = elim m [ ]
  candidates_from-IsEarned (a ∷ rows) c within m =
      elim (mem_append→ (candidate_of is_authorised licence tables a) m) [
        | inl here ↦ candidate_of-IsEarned a c (within a (Memᴰ.head refl)) here
        | inr later ↦ candidates_from-IsEarned rows c (λ x n. within x (Memᴰ.tail n)) later
      ]

  pub candidates-IsEarned :
      (limit : ℕ) (c : IssuanceCandidate)
      → Memᴰ c (find_issuance_candidates is_authorised licence tables limit)
      → IsEarned c.assessment_id c.app_id c.organisation_id c.consent_id
  unfolding find_issuance_candidates
  candidates-IsEarned limit c m =
      let sorted = sort (earlier is_authorised licence tables) tables.assessments in
      candidates_from-IsEarned sorted c
        (λ a n. mem_sort→ (earlier is_authorised licence tables) tables.assessments n)
        (mem_take→ limit (candidates_from is_authorised licence tables sorted) m)
