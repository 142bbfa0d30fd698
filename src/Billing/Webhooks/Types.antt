-- ===== src/Billing/Webhooks/Types.antt =====
-- What a provider reports (packages/billing/src/provider.ts) and the rows that the handler of
-- packages/billing/src/webhooks.ts writes. What an event means (`interpret`) is a parameter, as it is
-- in the code; so is what the database refuses of a row (its enums, foreign keys and shapes), but for
-- the two constraints over amounts and over the live subscriptions of an organisation. Amounts are in
-- cents. A note for the log is a constructor with the values that it quotes.
use vibefy.Prelude.{ℕ, String, Bool, Option, List, text_eq, Eq, enum_eq, ◌≡◌, arith}
use vibefy.Billing.Entitlements.{SubscriptionStatus}

pub data Provider : Type 0 where
  stripe paystack : Provider

abbrev pub position : Provider → ℕ
position stripe = 0
position paystack = 1

pub position_injective : (a b : Provider) → position a ≡ position b → a ≡ b
position_injective a b h = ground arith

instance abbrev pub provider_eq : Eq Provider
provider_eq = enum_eq position position_injective

pub record PaymentSettled : Type 0 where
  pub organisation_id : Option String
  pub plan : String
  pub app_id : Option String
  pub recurring : Bool
  pub customer_id : Option String
  pub subscription_id : Option String
  pub invoice_id : String
  pub payment_reference : Option String
  pub amount_total_cents : ℕ
  pub amount_tax_cents : ℕ
  pub currency : String
  pub billing_country : Option String

pub record SubscriptionChanged : Type 0 where
  pub organisation_id : Option String
  pub subscription_id : String
  pub customer_id : Option String
  pub plan : Option String
  pub status : SubscriptionStatus
  pub period_start : Option ℕ
  pub period_end : Option ℕ

pub record InvoiceSettled : Type 0 where
  pub organisation_id : Option String
  pub invoice_id : String
  pub paid : Bool
  pub amount_due_cents : ℕ
  pub amount_paid_cents : ℕ
  pub amount_tax_cents : ℕ
  pub currency : String
  pub hosted_invoice_url : Option String

pub record RefundSettled : Type 0 where
  pub payment_reference : String
  pub amount_refunded_cents : ℕ

pub data BillingChange : Type 0 where
  payment_settled : PaymentSettled → BillingChange
  subscription_changed : SubscriptionChanged → BillingChange
  invoice_settled : InvoiceSettled → BillingChange
  refund_settled : RefundSettled → BillingChange
  ignored : String → BillingChange

-- `payload` is the text of `data`.
pub record BillingEvent : Type 0 where
  pub id : String
  pub type : String
  pub created_at : ℕ
  pub payload : String

pub record EventInterpreter : Type 0 where
  pub name : Provider
  pub interpret : BillingEvent → BillingChange

pub data Note : Type 0 where
  no_organisation already_processed : Note
  activated : String → String → Note
  payment_recorded : ℕ → String → String → Note
  created_from_event now_is : String → SubscriptionStatus → Note
  invoice_is : String → Bool → Note
  refunded_against : ℕ → String → Note
  no_invoice_for : String → Note
  recorded : String → Note

pub record EventRow : Type 0 where
  pub provider : Provider
  pub provider_event_id : String
  pub event_type : String
  pub organisation_id : Option String
  pub occurred_at : ℕ
  pub payload : String
  pub handled : Bool
  pub handler_note : Option Note

pub record SubscriptionRow : Type 0 where
  pub organisation_id : String
  pub plan : String
  pub status : SubscriptionStatus
  pub provider : Provider
  pub provider_customer_id : Option String
  pub provider_subscription_id : Option String
  pub current_period_start : Option ℕ
  pub current_period_end : Option ℕ
  pub cancelled_at : Option ℕ

pub data InvoiceStatus : Type 0 where
  draft opened paid void uncollectible refunded : InvoiceStatus

pub record InvoiceRow : Type 0 where
  pub organisation_id : String
  pub provider : Provider
  pub provider_invoice_id : Option String
  pub provider_payment_reference : Option String
  pub amount_due_cents : ℕ
  pub amount_paid_cents : ℕ
  pub amount_tax_cents : ℕ
  pub amount_refunded_cents : ℕ
  pub currency : String
  pub status : InvoiceStatus
  pub tax_country : Option String
  pub app_id : Option String
  pub plan : Option String
  pub hosted_invoice_url : Option String
  pub issued_at : Option ℕ
  pub paid_at : Option ℕ

pub record Database : Type 0 where
  pub events : List EventRow
  pub subscriptions : List SubscriptionRow
  pub invoices : List InvoiceRow

pub record Constraints : Type 0 where
  pub accepts_event : EventRow → Bool
  pub accepts_subscription : SubscriptionRow → Bool
  pub accepts_invoice : InvoiceRow → Bool

pub data DbError : Type 0 where
  bad_event bad_subscription bad_invoice two_live refund_above_payment : DbError

-- A statement that the database refuses, with what the transaction had written by then.
pub record Aborted : Type 0 where
  pub error : DbError
  pub working : Database

pub record AppliedEvent : Type 0 where
  pub event_id : String
  pub type : String
  pub duplicate : Bool
  pub note : Note

-- What the route answers: 200 with what was done, or 500, which asks for another delivery.
pub data Response : Type 0 where
  received : Bool → Note → Response
  could_not_apply : Response
