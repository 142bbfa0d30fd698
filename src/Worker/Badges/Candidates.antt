-- ===== src/Worker/Badges/Candidates.antt =====
-- Which applications are due a badge (`findIssuanceCandidates` of apps/worker/src/badge.ts), the query
-- clause by clause. Rows that the order does not tell apart keep the order of their table.

pub mod Earned
use vibefy.Prelude.{
  ℕ, ◌≤◌, String, Bool, true, false, not, ◌&&◌, ◌||◌, Option, none, some, List, [], ◌∷◌, ◌++◌,
  find?, filter, any, take, is_empty, ltb, if◌then◌else◌, ◌==◌, text_eq,
}
use vibefy.Prelude.Sort.{sort}
use vibefy.Prelude.Text.{Text}
use vibefy.Monitoring.Liveness.{BadgeStatus}
use vibefy.Billing.Entitlements.{SubscriptionStatus}
use vibefy.Billing.Webhooks.Types.{SubscriptionRow}
use vibefy.Worker.Badges.Types.{
  AssessmentStatus, approved, AssessmentRow, AppRow, OrganisationRow, ConsentRow, BadgeRow, Tables,
  IssuanceCandidate,
}

abbrev pub is_approved : AssessmentStatus → Bool
is_approved approved = true
is_approved _ = false

-- `status in ('active', 'trialing')`.
abbrev pub in_force : SubscriptionStatus → Bool
in_force SubscriptionStatus.active = true
in_force SubscriptionStatus.trialing = true
in_force _ = false

-- `status in ('active', 'suspended')`.
abbrev pub stands : BadgeStatus → Bool
stands BadgeStatus.active = true
stands BadgeStatus.suspended = true
stands _ = false

abbrev first {ℓ} : {A : Type ℓ} → List A → Option A
first [] = none
first (a ∷ rest) = some a

-- The acceptance of the licence in force, the latest first.
abbrev pub accepts_licence : String → String → ConsentRow → Bool
accepts_licence version organisation c =
    (c.organisation_id == organisation)
    && ((c.document_type == "badge_licence")
        && ((c.document_version == version) && (c.action == "accepted")))

abbrev later : ConsentRow → ConsentRow → Bool
later a b = ltb b.occurred_at a.occurred_at

abbrev pub acceptance : String → String → List ConsentRow → Option ConsentRow
acceptance version organisation consents =
    first (sort later (filter (accepts_licence version organisation) consents))

-- The plan in force that is not free, an active one first.
abbrev pub carries_badge : String → SubscriptionRow → Bool
carries_badge organisation s =
    (s.organisation_id == organisation) && (in_force s.status && not (s.plan == "free"))

abbrev status_rank : SubscriptionStatus → ℕ
status_rank SubscriptionStatus.active = 0
status_rank _ = 1

abbrev active_first : SubscriptionRow → SubscriptionRow → Bool
active_first a b = ltb (status_rank a.status) (status_rank b.status)

abbrev plan_of : Option SubscriptionRow → Option String
plan_of none = none
plan_of (some s) = some s.plan

abbrev pub plan_in_force : String → List SubscriptionRow → Option String
plan_in_force organisation subscriptions =
    plan_of (first (sort active_first (filter (carries_badge organisation) subscriptions)))

abbrev pub is_subscribed : String → SubscriptionRow → Bool
is_subscribed organisation s = (s.organisation_id == organisation) && in_force s.status

abbrev pub is_some {ℓ} : {A : Type ℓ} → Option A → Bool
is_some none = false
is_some (some a) = true

-- A plan that is not free, or no subscription at all.
abbrev pub may_carry_badge : String → List SubscriptionRow → Bool
may_carry_badge organisation subscriptions =
    is_some (plan_in_force organisation subscriptions)
    || not (any (is_subscribed organisation) subscriptions)

abbrev pub stands_for : String → BadgeRow → Bool
stands_for app b = (b.app_id == app) && stands b.status

abbrev or_one_off : Option String → String
or_one_off none = "one_off"
or_one_off (some plan) = plan

abbrev pub app_named : String → AppRow → Bool
app_named id app = app.id == id

abbrev pub organisation_named : String → OrganisationRow → Bool
organisation_named id organisation = organisation.id == id

module _ (is_authorised : String → Bool) (licence : String) (tables : Tables) where
  abbrev pub meets : AssessmentRow → Bool
  meets a =
      is_approved a.status
      && (a.certification_eligible
          && (is_authorised a.app_id
              && (may_carry_badge a.organisation_id tables.subscriptions
                  && not (any (stands_for a.app_id) tables.badges))))

  abbrev pub candidate :
      AssessmentRow → ℕ → AppRow → Text → OrganisationRow → ConsentRow → IssuanceCandidate
  candidate a score app url organisation consent = record {
    assessment_id = a.id;
    app_id = a.app_id;
    organisation_id = a.organisation_id;
    app_name = app.name;
    primary_url = url;
    rubric_version = a.rubric_version;
    score = score;
    assessed_on = a.assessed_on;
    plan = or_one_off (plan_in_force a.organisation_id tables.subscriptions);
    consent_id = consent.id;
    is_marketing_client = organisation.is_marketing_client;
  }

  -- `primary_url is not null`.
  abbrev pub with_url :
      AssessmentRow
      → ℕ
      → AppRow
      → Option Text
      → OrganisationRow
      → ConsentRow
      → List IssuanceCandidate
  with_url a score app none organisation consent = []
  with_url a score app (some url) organisation consent =
      candidate a score app url organisation consent ∷ []

  -- The row of an assessment, where it has a score and every join finds one.
  abbrev pub joined :
      AssessmentRow
      → Option ℕ
      → Option AppRow
      → Option OrganisationRow
      → Option ConsentRow
      → List IssuanceCandidate
  joined a (some score) (some app) (some organisation) (some consent) =
      with_url a score app app.primary_url organisation consent
  joined a _ _ _ _ = []

  abbrev pub candidate_of : AssessmentRow → List IssuanceCandidate
  candidate_of a =
      if meets a
      then joined a a.overall_score (find? (app_named a.app_id) tables.apps)
          (find? (organisation_named a.organisation_id) tables.organisations)
          (acceptance licence a.organisation_id tables.consents)
      else []

  unfoldable pub candidates_from : List AssessmentRow → List IssuanceCandidate
  candidates_from [] = []
  candidates_from (a ∷ rows) = candidate_of a ++ candidates_from rows

  -- The oldest review first, and last those without one.
  abbrev reviewed_before : Option ℕ → Option ℕ → Bool
  reviewed_before (some s) (some t) = ltb s t
  reviewed_before (some s) none = true
  reviewed_before none _ = false

  abbrev pub earlier : AssessmentRow → AssessmentRow → Bool
  earlier a b = reviewed_before a.reviewed_at b.reviewed_at

  unfoldable pub find_issuance_candidates : ℕ → List IssuanceCandidate
  find_issuance_candidates limit = take limit (candidates_from (sort earlier tables.assessments))
