-- ===== src/Worker/Badges/Issue.antt =====
-- The issuing of badges (`validityMonthsFor`, `issueBadgeFor` and `sweepBadgeIssuance` of
-- apps/worker/src/badge.ts). Ed25519, dates, the origin of an address, lower case and random characters
-- are parameters, and so are the maximum that a rubric publishes and what the table refuses of a row,
-- but for its index of one badge that stands for an application. The announcement of a badge and the
-- lines for the log are left out.
pub mod Inserted
pub mod Gate
pub mod Verifies
use vibefy.Prelude.{
  ℕ, ◌+◌, String, Bool, true, false, not, ◌&&◌, ◌||◌, Option, none, some, List, [], ◌∷◌, ◌++◌, any,
  leb, ltb, nat_beq, if◌then◌else◌, ◌==◌, text_eq, Result, ok, err, ◌>>=◌, ◌>>◌, throw_if,
}
use vibefy.Prelude.Double.{tenths, to_tenths}
use vibefy.Prelude.Text.{Text}
use vibefy.Prelude.Dict.{lookup}
use vibefy.Prelude.Table.{update_where}
use vibefy.Badge.Payload.{BadgePayload, Dates}
use vibefy.Badge.Sign.{Crypto, SigningKey, SignedBadge, SignError, sign_badge}
use vibefy.Monitoring.Liveness.{BadgeStatus}
use vibefy.Monitoring.Schedule.{MonitoredPlan, is_monitored}
use vibefy.Worker.Badges.Types.{AppRow, BadgeRow, Tables, IssuanceCandidate}
use vibefy.Worker.Badges.Slug.{slugify}
use vibefy.Worker.Badges.Candidates.{app_named, stands_for, find_issuance_candidates}

-- `VALIDITY_MONTHS`.
abbrev pub validity_months : List (String × ℕ)
validity_months =
    ("free", 0) ∷ ("one_off", 12) ∷ ("certified", 3) ∷ ("agency", 3) ∷ ("organisation", 3) ∷ []

pub record Platform : Type 1 where
  pub crypto : Crypto
  pub date : Dates
  pub iso : ℕ → Text
  pub add_months : ℕ → ℕ → ℕ
  pub origin : Text → Option Text
  pub lower_case : Text → Text

-- `published_maximum` is `none` where there is no rubric of that version.
pub record Rules : Type 0 where
  pub published_maximum : Text → Option ℕ
  pub accepts : BadgeRow → Bool

-- The random characters of a badge: its identifier, and the end of its address.
pub record Fresh : Type 0 where
  pub public_id : Text
  pub random : Text

pub data IssueError : Type 0 where
  no_validity : String → IssueError
  no_rubric unusable_maximum : Text → IssueError
  term_too_long : String → ℕ → ℕ → IssueError
  bad_origin : Text → IssueError
  unsigned : SignError → IssueError
  refused_row already_stands : IssueError

unfoldable pub term_within_published : String → ℕ → ℕ → Text → Result IssueError ℕ
term_within_published plan months maximum rubric_version = do
  throw_if (nat_beq maximum 0) (unusable_maximum rubric_version)
  throw_if (ltb maximum months) (term_too_long plan months maximum)
  ok months

abbrev positive_or_throw : String → Option ℕ → Result IssueError ℕ
positive_or_throw plan none = err (no_validity plan)
positive_or_throw plan (some months) = if leb months 0 then err (no_validity plan) else ok months

abbrev or_throw {ℓ} : {A : Type ℓ} → IssueError → Option A → Result IssueError A
or_throw e none = err e
or_throw e (some a) = ok a

unfoldable pub validity_months_for : Rules → String → Text → Result IssueError ℕ
validity_months_for rules plan rubric_version = do
  months ← positive_or_throw plan (lookup plan validity_months)
  maximum ← or_throw (no_rubric rubric_version) (rules.published_maximum rubric_version)
  term_within_published plan months maximum rubric_version

abbrev signed_or_throw : Result SignError SignedBadge → Result IssueError SignedBadge
signed_or_throw (err e) = err (unsigned e)
signed_or_throw (ok b) = ok b

-- A plan that is no `MonitoredPlan` has no validity either, and does not come this far.
abbrev monitored_plans : List (String × MonitoredPlan)
monitored_plans =
    ("free", MonitoredPlan.free)
    ∷ ("one_off", MonitoredPlan.one_off)
    ∷ ("certified", MonitoredPlan.certified)
    ∷ ("agency", MonitoredPlan.agency)
    ∷ ("organisation", MonitoredPlan.organisation)
    ∷ []

abbrev is_monitored_plan : Option MonitoredPlan → Bool
is_monitored_plan none = false
is_monitored_plan (some plan) = is_monitored plan

abbrev monitor : AppRow → AppRow
monitor app = record app { monitoring_enabled = true }

module _ (platform : Platform) (rules : Rules) (key : SigningKey platform.crypto) where
  abbrev pub payload_of : IssuanceCandidate → Fresh → Text → ℕ → ℕ → BadgePayload
  payload_of candidate fresh origin now expires = record {
    v = 1;
    kid = key.kid;
    badge_id = fresh.public_id;
    slug = slugify (platform.lower_case candidate.app_name) fresh.random;
    app_name = candidate.app_name;
    certified_origin = origin;
    rubric_version = candidate.rubric_version;
    score = tenths (to_tenths candidate.score);
    assessed_on = candidate.assessed_on;
    issued_at = platform.iso now;
    expires_at = platform.iso expires;
    owner_is_marketing_client = candidate.is_marketing_client;
  }

  abbrev pub badge_row : IssuanceCandidate → SignedBadge → ℕ → ℕ → BadgeRow
  badge_row candidate signed now expires = record {
    app_id = candidate.app_id;
    organisation_id = candidate.organisation_id;
    assessment_id = candidate.assessment_id;
    slug = signed.payload.slug;
    public_id = signed.payload.badge_id;
    status = BadgeStatus.active;
    rubric_version = candidate.rubric_version;
    score = signed.payload.score;
    assessed_at = candidate.assessed_on;
    certified_origin = signed.payload.certified_origin;
    payload = signed.payload;
    signature = signed.signature;
    signing_key_id = key.kid;
    licence_consent_id = candidate.consent_id;
    issued_at = now;
    expires_at = expires;
    suspended_at = none;
    suspension_reason = none;
  }

  -- The insertion, under the index `badges_one_active_per_app`.
  unfoldable pub insert_badge : BadgeRow → Tables → Result IssueError Tables
  insert_badge row tables = do
    throw_if (not (rules.accepts row)) refused_row
    throw_if (any (stands_for row.app_id) tables.badges) already_stands
    ok (record tables { badges = tables.badges ++ row ∷ [] })

  abbrev pub start_monitoring : IssuanceCandidate → Tables → Tables
  start_monitoring candidate tables =
      if is_monitored_plan (lookup candidate.plan monitored_plans)
      then record tables { apps = update_where monitor (app_named candidate.app_id) tables.apps }
      else tables

  unfoldable pub issue_badge_for :
      IssuanceCandidate → Fresh → ℕ → Tables → Result IssueError (Tables × BadgeRow)
  issue_badge_for candidate fresh now tables = do
    months ← validity_months_for rules candidate.plan candidate.rubric_version
    origin ← or_throw (bad_origin candidate.primary_url) (platform.origin candidate.primary_url)
    let expires = platform.add_months now months
    signed ← signed_or_throw (
        sign_badge platform.crypto platform.date (payload_of candidate fresh origin now expires)
          key)
    let row = badge_row candidate signed now expires
    after ← insert_badge row tables
    ok (start_monitoring candidate after, row)

  -- The body of the loop, in its `try`: what is thrown leaves the tables as they are.
  abbrev pub attempted : Tables → Result IssueError (Tables × BadgeRow) → Tables × List BadgeRow
  attempted tables (err e) = (tables, [])
  attempted tables (ok (after, row)) = (after, row ∷ [])

  -- The loop over the candidates, the n-th at its moment and with its random characters; with the
  -- badges that it issued.
  unfoldable pub issue_all :
      (ℕ → Fresh) → (ℕ → ℕ) → ℕ → List IssuanceCandidate → Tables → Tables × List BadgeRow
  issue_all fresh moment n [] tables = (tables, [])
  issue_all fresh moment n (candidate ∷ candidates) tables =
      let (after, issued) =
        attempted tables (issue_badge_for candidate (fresh n) (moment n) tables) in
      let (last, more) = issue_all fresh moment (n + 1) candidates after in (last, issued ++ more)

module _ (platform : Platform) (rules : Rules) where
  -- A process without a signing key issues nothing.
  unfoldable pub sweep_badge_issuance :
      (String → Bool)
      → String
      → Option (SigningKey platform.crypto)
      → (ℕ → Fresh)
      → (ℕ → ℕ)
      → Tables
      → Tables × List BadgeRow
  sweep_badge_issuance is_authorised licence none fresh moment tables = (tables, [])
  sweep_badge_issuance is_authorised licence (some key) fresh moment tables =
      issue_all platform rules key fresh moment 0
        (find_issuance_candidates is_authorised licence tables 20) tables
