-- ===== src/Worker/Badges/Types.antt =====
-- The rows that the sweeps of apps/worker/src/badge.ts read and write. Texts that are signed are lists
-- of code points, identifiers are strings; a score is a double (Prelude/Double), as `Number`
-- reads the column; dates are in milliseconds, but for `assessed_on`, which the query sends as a text.
-- The statements on subscriptions and invoices read the rows of Billing.Webhooks. Whether an application is authorised
-- (`app_is_authorised_for_testing`) is a parameter.
use vibefy.Prelude.{ℕ, String, Bool, Option, List}
use vibefy.Prelude.Text.{Text}
use vibefy.Badge.Payload.{BadgePayload}
use vibefy.Billing.Webhooks.Types.{SubscriptionRow, InvoiceRow}
use vibefy.Monitoring.Liveness.{BadgeStatus}

pub data AssessmentStatus : Type 0 where
  approved : AssessmentStatus
  other : String → AssessmentStatus

-- `assessed_on` is the date of `coalesce(completed_at, created_at)`.
pub record AssessmentRow : Type 0 where
  pub id : String
  pub app_id : String
  pub organisation_id : String
  pub status : AssessmentStatus
  pub certification_eligible : Bool
  pub rubric_version : Text
  pub overall_score : Option ℕ
  pub assessed_on : Text
  pub reviewed_at : Option ℕ

pub record AppRow : Type 0 where
  pub id : String
  pub name : Text
  pub primary_url : Option Text
  pub monitoring_enabled : Bool

pub record OrganisationRow : Type 0 where
  pub id : String
  pub is_marketing_client : Bool

pub record ConsentRow : Type 0 where
  pub id : String
  pub organisation_id : String
  pub document_type : String
  pub document_version : String
  pub action : String
  pub occurred_at : ℕ

-- Why a badge is suspended: one of the two sentences of badge.ts, a sentence of the liveness sweep
-- ('The application did not respond…'), or any other.
pub data Suspension : Type 0 where
  lapsed withdrawn did_not_respond : Suspension
  another_reason : String → Suspension

pub record BadgeRow : Type 0 where
  pub app_id : String
  pub organisation_id : String
  pub assessment_id : String
  pub slug : Text
  pub public_id : Text
  pub status : BadgeStatus
  pub rubric_version : Text
  pub score : ℕ
  pub assessed_at : Text
  pub certified_origin : Text
  pub payload : BadgePayload
  pub signature : Text
  pub signing_key_id : Text
  pub licence_consent_id : String
  pub issued_at : ℕ
  pub expires_at : ℕ
  pub suspended_at : Option ℕ
  pub suspension_reason : Option Suspension

pub record Tables : Type 0 where
  pub assessments : List AssessmentRow
  pub apps : List AppRow
  pub organisations : List OrganisationRow
  pub consents : List ConsentRow
  pub subscriptions : List SubscriptionRow
  pub invoices : List InvoiceRow
  pub badges : List BadgeRow

pub record IssuanceCandidate : Type 0 where
  pub assessment_id : String
  pub app_id : String
  pub organisation_id : String
  pub app_name : Text
  pub primary_url : Text
  pub rubric_version : Text
  pub score : ℕ
  pub assessed_on : Text
  pub plan : String
  pub consent_id : String
  pub is_marketing_client : Bool
