-- ===== src/Worker/Badges/Tests.antt =====
-- The sweeps of the badges at concrete values (apps/worker/src/badge.ts): two approved assessments of
-- one application, by a signature that is the text itself and a calendar of one moment a character.
use vibefy.Prelude.{
  ℕ, ◌+◌, ◌*◌, ◌≤◌, ◌<◌, String, true, false, none, some, List, [], ◌∷◌, map, ◌≡◌, ◌↔◌, ◌⊎◌, refl,
  Memᴰ,
}
use vibefy.Prelude.Double.{one, rounded, spacing, hundredths, tenths, to_tenths}
use vibefy.Prelude.Text.{Text, codes, same_text, same_text_iff}
use vibefy.Prelude.Dict.{lookup}
use vibefy.Prelude.Sort.{sort, insert_sorted}
use vibefy.Badge.Payload.{BadgePayload, Dates, raw_of, canonicalise, checked, serialised}
use vibefy.Badge.Sign.{Crypto, PublicJwk, SigningKey, sign_badge, public_key_from_jwk, verify_badge}
use vibefy.Monitoring.Liveness.{BadgeStatus}
use vibefy.Monitoring.Schedule.{is_monitored, cadence_for}
use vibefy.Billing.Entitlements.{SubscriptionStatus}
use vibefy.Billing.Webhooks.Types.{SubscriptionRow, Provider}
use vibefy.Worker.Badges.Types.{AssessmentStatus, AssessmentRow, Suspension, BadgeRow, Tables}
use vibefy.Worker.Badges.Slug.{is_slug, dashed, without_last_dash, slugify, slugify-is_slug}
use vibefy.Worker.Badges.Candidates.Earned.{IsEarned}
use vibefy.Worker.Badges.Issue.{
  Platform, Rules, Fresh, term_within_published, validity_months_for, insert_badge, issue_badge_for,
  issue_all, sweep_badge_issuance,
}
use vibefy.Worker.Badges.Candidates.{candidates_from, find_issuance_candidates}
use vibefy.Worker.Badges.Issue.Gate.{sweep-IsEarned}
use vibefy.Worker.Badges.Issue.Verifies.{issued_badge_verifies}
use vibefy.Worker.Badges.Lifecycle.{Moments, sweep_badge_lifecycle}
use vibefy.Worker.Badges.Lifecycle.Active.{swept, Survives, Returns, sweep_active_iff}
use vibefy.Worker.Badges.Events.{Event, Decision, run}
use vibefy.Worker.Badges.Events.Stuck.{suspended_badge_is_stuck}

slugify-is_slug_example : is_slug (slugify (codes "my app!") (codes "a1b2c3")) ≡ true
slugify-is_slug_example = slugify-is_slug (codes "my app!") (codes "a1b2c3") refl refl

abbrev plain : Crypto
plain = record {
  PrivateKey = Text;
  PublicKey = Text;
  sign = λ key m. m;
  verify = λ key m s. same_text m s;
  read_key = λ x. some x;
}

-- A text stands for its first character.
abbrev calendar : Dates
calendar [] = none
calendar (c ∷ s) = some c

abbrev platform : Platform
platform = record {
  crypto = plain;
  date = calendar;
  iso = λ t. t ∷ [];
  add_months = λ t m. t + m * 100;
  origin = λ url. some url;
  lower_case = λ t. t;
}

abbrev rules : Rules
rules = record { published_maximum = λ version. some 12; accepts = λ row. true }

abbrev key : SigningKey plain
key = record { kid = codes "k1"; private_key = codes "p" }

abbrev assessment : String → ℕ → AssessmentRow
assessment id reviewed = record {
  id = id;
  app_id = "app";
  organisation_id = "org";
  status = AssessmentStatus.approved;
  certification_eligible = true;
  rubric_version = codes "1.1.0";
  overall_score = some (hundredths 8250);
  assessed_on = codes "0";
  reviewed_at = some reviewed;
}

abbrev subscription : SubscriptionStatus → SubscriptionRow
subscription status = record {
  organisation_id = "org";
  plan = "certified";
  status = status;
  provider = Provider.stripe;
  provider_customer_id = none;
  provider_subscription_id = some "s1";
  current_period_start = none;
  current_period_end = none;
  cancelled_at = none;
}

abbrev tables : List BadgeRow → SubscriptionStatus → Tables
tables badges status = record {
  assessments = assessment "late" 9 ∷ assessment "early" 5 ∷ [];
  apps =
      record {
        id = "app";
        name = codes "App";
        primary_url = some (codes "https://a.test");
        monitoring_enabled = false;
      }
      ∷ [];
  organisations = record { id = "org"; is_marketing_client = false } ∷ [];
  consents =
      record {
        id = "c1";
        organisation_id = "org";
        document_type = "badge_licence";
        document_version = "2";
        action = "accepted";
        occurred_at = 3;
      }
      ∷ [];
  subscriptions = subscription status ∷ [];
  invoices = [];
  badges = badges;
}

abbrev fresh : ℕ → Fresh
fresh n = record { public_id = codes "id"; random = codes "a1b2c3" }

abbrev before : Tables
before = tables [] SubscriptionStatus.active

abbrev payload : BadgePayload
payload = record {
  v = 1;
  kid = codes "k1";
  badge_id = codes "id";
  slug = codes "pp-a1b2c3";
  app_name = codes "App";
  certified_origin = codes "https://a.test";
  rubric_version = codes "1.1.0";
  score = tenths 825;
  assessed_on = codes "0";
  issued_at = 1000 ∷ [];
  expires_at = 1300 ∷ [];
  owner_is_marketing_client = false;
}

abbrev badge : BadgeRow
badge = record {
  app_id = "app";
  organisation_id = "org";
  assessment_id = "early";
  slug = codes "pp-a1b2c3";
  public_id = codes "id";
  status = BadgeStatus.active;
  rubric_version = codes "1.1.0";
  score = tenths 825;
  assessed_at = codes "0";
  certified_origin = codes "https://a.test";
  payload = payload;
  signature = serialised payload;
  signing_key_id = codes "k1";
  licence_consent_id = "c1";
  issued_at = 1000;
  expires_at = 1300;
  suspended_at = none;
  suspension_reason = none;
}

abbrev swept_once : Tables × List BadgeRow
swept_once =
    sweep_badge_issuance platform rules (λ app. true) "2" (some key) fresh (λ n. 1000) before

-- The second assessment finds the badge of the first, and gets none.
one_stands : swept_once.0.badges ≡ badge ∷ []
unfolding one rounded spacing hundredths tenths to_tenths sweep_badge_issuance issue_all
    find_issuance_candidates candidates_from sort insert_sorted issue_badge_for validity_months_for
    term_within_published insert_badge slugify dashed without_last_dash sign_badge canonicalise
    checked serialised lookup is_monitored cadence_for same_text
one_stands = refl

one_issued : swept_once.1 ≡ badge ∷ []
unfolding one rounded spacing hundredths tenths to_tenths sweep_badge_issuance issue_all
    find_issuance_candidates candidates_from sort insert_sorted issue_badge_for validity_months_for
    term_within_published insert_badge slugify dashed without_last_dash sign_badge canonicalise
    checked serialised lookup is_monitored cadence_for same_text
one_issued = refl

sweep-IsEarned_example :
    Memᴰ badge before.badges
    ⊎ (IsEarned (λ app. true) "2" before "early" "app" "org" "c1"
        × (months : ℕ) × (maximum : ℕ) × (1300 ≡ 1000 + months * 100)
        × (some 12 ≡ some maximum)
        × (0 < months)
        × (months ≤ maximum))
sweep-IsEarned_example =
    sweep-IsEarned platform rules (λ app. true) "2" (some key) fresh (λ n. 1000) before badge
      (rw one_stands (Memᴰ.head refl))

abbrev published : PublicJwk
published = record { kid = codes "k1"; x = codes "x"; is_ed25519 = true }

issued_badge_verifies_example :
    ((verify_badge plain calendar
        (some (raw_of payload))
        badge.signature
        (published ∷ [])
        1200).signature_valid
      ≡ true)
    × ((verify_badge plain calendar
          (some (raw_of payload))
          badge.signature
          (published ∷ [])
          1200).payload
        ≡ some payload)
    × (((verify_badge plain calendar
            (some (raw_of payload))
            badge.signature
            (published ∷ [])
            1200).within_validity
          ≡ true)
        ↔ ((1000 ≤ 1200) × (1200 < 1300)))
unfolding public_key_from_jwk same_text
issued_badge_verifies_example =
    issued_badge_verifies platform rules key (λ app. true) "2" fresh (λ n. 1000) before badge
      (published ∷ []) published (codes "x") 1200 (rw one_issued (Memᴰ.head refl)) refl refl
      (λ m. (same_text_iff m m).1 refl) (λ t. refl)

abbrev lapsed_badge : BadgeRow
lapsed_badge = record badge {
  status = BadgeStatus.suspended;
  suspended_at = some 1100;
  suspension_reason = some Suspension.lapsed;
}

abbrev moments : Moments
moments = record { expiry = 1150; lapse = 1150; withdrawal = 1150; return = 1150 }

abbrev cancelled : Tables
cancelled = tables (badge ∷ []) SubscriptionStatus.cancelled

sweep_active_iff_example :
    ((sweep_badge_lifecycle (λ app. true) cancelled moments).0
      ≡ map (swept (λ app. true) cancelled moments) (badge ∷ []))
    × ((b : BadgeRow)
        → ((swept (λ app. true) cancelled moments b).status ≡ BadgeStatus.active) ↔ (
            Survives (λ app. true) cancelled moments b ⊎ Returns (λ app. true) cancelled moments b))
sweep_active_iff_example = sweep_active_iff (λ app. true) cancelled moments

-- The subscription of the badge is cancelled, and the sweep takes the badge down.
lapse_suspends :
    swept (λ app. true) cancelled moments badge ≡ record lapsed_badge { suspended_at = some 1150 }
lapse_suspends = refl

abbrev months_later : List (Event platform rules)
months_later =
    Event.others_write before
    ∷ Event.lifecycle (λ app. true) moments
    ∷ Event.recovers (λ b. true)
    ∷ Event.reviews (codes "another") Decision.reinstates 1100
    ∷ Event.issuance (λ app. true) "2" (some key) fresh (λ n. 1200)
    ∷ []

abbrev lapsed_tables : Tables
lapsed_tables = tables (lapsed_badge ∷ []) SubscriptionStatus.cancelled

suspended_badge_is_stuck_example :
    Memᴰ lapsed_badge (run platform rules months_later lapsed_tables).badges
    × ((a : BadgeRow)
        → Memᴰ a (run platform rules months_later lapsed_tables).badges
        → a.app_id ≡ "app"
        → (o : BadgeRow) × Memᴰ o (lapsed_badge ∷ [])
          × (o.public_id ≡ a.public_id)
          × (o.app_id ≡ a.app_id))
suspended_badge_is_stuck_example =
    suspended_badge_is_stuck platform rules months_later lapsed_tables lapsed_badge
      (refl, (λ h. cc h), (λ h. cc h)) ((λ h. cc h), tt) (Memᴰ.head refl)
