-- ===== src/Billing/Webhooks/Rows.antt =====
-- Which rows a change is about, and what it makes of them (packages/billing/src/webhooks.ts).
use vibefy.Prelude.{
  ℕ, min, String, Bool, true, false, not, ◌&&◌, Option, none, some, List, [], ◌∷◌, any, leb,
  if◌then◌else◌, ◌==◌, text_eq, is_some_of,
}
use vibefy.Billing.Entitlements.{SubscriptionStatus, trialing, active, past_due, paused, cancelled}
use vibefy.Billing.Webhooks.Types.{
  Provider, provider_eq, PaymentSettled, SubscriptionChanged, InvoiceSettled, EventRow,
  SubscriptionRow, InvoiceStatus, opened, paid, refunded, InvoiceRow,
}

-- An empty text is falsy.
abbrev pub truthy : Option String → Option String
truthy none = none
truthy (some s) = if s == "" then none else some s

-- `coalesce(new, old)`.
abbrev pub coalesce {ℓ} : {A : Type ℓ} → Option A → Option A → Option A
coalesce none old = old
coalesce (some a) old = some a

abbrev pub is_event : Provider → String → EventRow → Bool
is_event provider id r = (r.provider == provider) && (r.provider_event_id == id)

abbrev pub is_subscription : Provider → String → SubscriptionRow → Bool
is_subscription provider id r = (r.provider == provider) && is_some_of r.provider_subscription_id id

abbrev pub is_invoice : Provider → String → InvoiceRow → Bool
is_invoice provider id r = (r.provider == provider) && is_some_of r.provider_invoice_id id

abbrev pub is_payment : Provider → String → InvoiceRow → Bool
is_payment provider reference r =
    (r.provider == provider) && is_some_of r.provider_payment_reference reference

abbrev pub is_live : SubscriptionStatus → Bool
is_live trialing = true
is_live active = true
is_live past_due = true
is_live paused = true
is_live _ = false

-- The unique index `subscriptions_one_live_per_org`.
unfoldable pub one_live : List SubscriptionRow → Bool
one_live [] = true
one_live (r ∷ rs) =
    not (
      is_live r.status
      && any (λ (s : SubscriptionRow). is_live s.status && (s.organisation_id == r.organisation_id))
          rs)
    && one_live rs

-- `invoices_refund_within_payment`.
abbrev pub within_payment : InvoiceRow → Bool
within_payment r = leb r.amount_refunded_cents r.amount_paid_cents

abbrev pub subscribed : Provider → PaymentSettled → String → String → SubscriptionRow
subscribed provider change organisation id = record {
  organisation_id = organisation;
  plan = change.plan;
  status = active;
  provider = provider;
  provider_customer_id = change.customer_id;
  provider_subscription_id = some id;
  current_period_start = none;
  current_period_end = none;
  cancelled_at = none;
}

abbrev pub activate : PaymentSettled → SubscriptionRow → SubscriptionRow
activate change r = record r {
  plan = change.plan;
  status = active;
  provider_customer_id = change.customer_id;
}

abbrev pub bought : Provider → PaymentSettled → String → ℕ → InvoiceRow
bought provider change organisation now = record {
  organisation_id = organisation;
  provider = provider;
  provider_invoice_id = some change.invoice_id;
  provider_payment_reference = change.payment_reference;
  amount_due_cents = change.amount_total_cents;
  amount_paid_cents = change.amount_total_cents;
  amount_tax_cents = change.amount_tax_cents;
  amount_refunded_cents = 0;
  currency = change.currency;
  status = paid;
  tax_country = change.billing_country;
  app_id = change.app_id;
  plan = some change.plan;
  hosted_invoice_url = none;
  issued_at = some now;
  paid_at = some now;
}

abbrev pub paid_again : PaymentSettled → ℕ → InvoiceRow → InvoiceRow
paid_again change now r = record r {
  amount_paid_cents = change.amount_total_cents;
  status = paid;
  paid_at = some now;
}

abbrev pub changed : SubscriptionChanged → ℕ → SubscriptionRow → SubscriptionRow
changed change now r = record r {
  status = change.status;
  current_period_start = coalesce change.period_start r.current_period_start;
  current_period_end = coalesce change.period_end r.current_period_end;
  cancelled_at = (elim change.status [ cancelled ↦ some now | _ ↦ r.cancelled_at ]);
}

abbrev pub plan_or_certified : Option String → String
plan_or_certified none = "certified"
plan_or_certified (some plan) = plan

abbrev pub created : Provider → SubscriptionChanged → String → SubscriptionRow
created provider change organisation = record {
  organisation_id = organisation;
  plan = plan_or_certified change.plan;
  status = change.status;
  provider = provider;
  provider_customer_id = change.customer_id;
  provider_subscription_id = some change.subscription_id;
  current_period_start = change.period_start;
  current_period_end = change.period_end;
  cancelled_at = none;
}

abbrev pub status_of : Bool → InvoiceStatus
status_of true = paid
status_of false = opened

abbrev pub when_paid : Bool → ℕ → Option ℕ → Option ℕ
when_paid true now old = some now
when_paid false now old = old

abbrev pub settled : InvoiceSettled → ℕ → InvoiceRow → InvoiceRow
settled change now r = record r {
  amount_due_cents = change.amount_due_cents;
  amount_paid_cents = change.amount_paid_cents;
  amount_tax_cents = change.amount_tax_cents;
  status = status_of change.paid;
  hosted_invoice_url = coalesce change.hosted_invoice_url r.hosted_invoice_url;
  paid_at = when_paid change.paid now r.paid_at;
}

abbrev pub invoiced : Provider → InvoiceSettled → String → ℕ → InvoiceRow
invoiced provider change organisation now = record {
  organisation_id = organisation;
  provider = provider;
  provider_invoice_id = some change.invoice_id;
  provider_payment_reference = none;
  amount_due_cents = change.amount_due_cents;
  amount_paid_cents = change.amount_paid_cents;
  amount_tax_cents = change.amount_tax_cents;
  amount_refunded_cents = 0;
  currency = change.currency;
  status = status_of change.paid;
  tax_country = none;
  app_id = none;
  plan = none;
  hosted_invoice_url = change.hosted_invoice_url;
  issued_at = some now;
  paid_at = when_paid change.paid now none;
}

-- `least($3, amount_paid_cents)`.
abbrev pub refund : ℕ → InvoiceRow → InvoiceRow
refund amount r = record r {
  amount_refunded_cents = min amount r.amount_paid_cents;
  status =
      (if leb r.amount_paid_cents (min amount r.amount_paid_cents) then refunded else r.status);
}
