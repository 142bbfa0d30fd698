-- ===== src/Billing/Webhooks/Apply.antt =====
-- What each kind of change writes (packages/billing/src/webhooks.ts), statement by statement.
use vibefy.Prelude.{
  ℕ, String, not, Option, none, some, List, [], ◌∷◌, ◌++◌, any, all, if◌then◌else◌, text_eq, Result,
  ok, ◌>>=◌, ◌>>◌, throw_if,
}
use vibefy.Prelude.Table.{update_where, upsert}
use vibefy.Billing.Webhooks.Types.{
  Provider, provider_eq, PaymentSettled, SubscriptionChanged, InvoiceSettled, RefundSettled,
  BillingChange, payment_settled, subscription_changed, invoice_settled, refund_settled, ignored,
  Note, no_organisation, activated, payment_recorded, created_from_event, now_is, invoice_is,
  refunded_against, no_invoice_for, recorded, SubscriptionRow, InvoiceRow, Database, Constraints,
  DbError, Aborted, bad_subscription, bad_invoice, two_live, refund_above_payment,
}
use vibefy.Billing.Webhooks.Rows.{
  truthy, is_subscription, is_invoice, is_payment, one_live, within_payment, subscribed, activate,
  bought, paid_again, changed, created, settled, invoiced, refund,
}

abbrev pub aborted : Database → DbError → Aborted
aborted db error = record { error = error; working = db }

module _ (database : Constraints) where
  -- A statement on a table, which the database refuses where the rows that it leaves are not as they
  -- must be; the rows that it does not touch were so before.
  unfoldable pub write_subscriptions : Database → List SubscriptionRow → Result Aborted Database
  write_subscriptions db rows = do
    throw_if (not (all database.accepts_subscription rows)) (aborted db bad_subscription)
    throw_if (not (one_live rows)) (aborted db two_live)
    ok (record db { subscriptions = rows })

  unfoldable pub write_invoices : Database → List InvoiceRow → Result Aborted Database
  write_invoices db rows = do
    throw_if (not (all database.accepts_invoice rows)) (aborted db bad_invoice)
    throw_if (not (all within_payment rows)) (aborted db refund_above_payment)
    ok (record db { invoices = rows })

  abbrev pub settle :
      Provider
      → PaymentSettled
      → ℕ
      → Database
      → String
      → Option String
      → Result Aborted (Database × Note)
  settle provider change now db organisation (some id) = do
    after ← write_subscriptions db (
        upsert (activate change) (is_subscription provider id)
          (subscribed provider change organisation id) db.subscriptions)
    ok (after, activated id change.plan)
  settle provider change now db organisation none = do
    after ← write_invoices db (
        upsert (paid_again change now) (is_invoice provider change.invoice_id)
          (bought provider change organisation now) db.invoices)
    ok (after, payment_recorded change.amount_total_cents change.currency change.plan)

  abbrev pub settle_for :
      Provider → PaymentSettled → ℕ → Database → Option String → Result Aborted (Database × Note)
  settle_for provider change now db none = ok (db, no_organisation)
  settle_for provider change now db (some organisation) =
      settle provider change now db organisation
        (if change.recurring then truthy change.subscription_id else none)

  unfoldable pub on_payment_settled :
      Provider → PaymentSettled → ℕ → Database → Result Aborted (Database × Note)
  on_payment_settled provider change now db =
      settle_for provider change now db (truthy change.organisation_id)

  abbrev pub create_subscription :
      Provider → SubscriptionChanged → Database → Option String → Result Aborted (Database × Note)
  create_subscription provider change db none = ok (db, now_is change.subscription_id change.status)
  create_subscription provider change db (some organisation) = do
    after ← write_subscriptions db (db.subscriptions ++ created provider change organisation ∷ [])
    ok (after, created_from_event change.subscription_id change.status)

  unfoldable pub on_subscription_changed :
      Provider → SubscriptionChanged → ℕ → Database → Result Aborted (Database × Note)
  on_subscription_changed provider change now db =
      let known = is_subscription provider change.subscription_id in
      if any known db.subscriptions
      then (do
        after ← write_subscriptions db (update_where (changed change now) known db.subscriptions)
        ok (after, now_is change.subscription_id change.status))
      else create_subscription provider change db (truthy change.organisation_id)

  abbrev pub create_invoice :
      Provider → InvoiceSettled → ℕ → Database → Option String → Result Aborted Database
  create_invoice provider change now db none = ok db
  create_invoice provider change now db (some organisation) =
      write_invoices db (db.invoices ++ invoiced provider change organisation now ∷ [])

  unfoldable pub on_invoice_settled :
      Provider → InvoiceSettled → ℕ → Database → Result Aborted (Database × Note)
  on_invoice_settled provider change now db = do
    let known = is_invoice provider change.invoice_id
    after ←
        (if any known db.invoices
          then write_invoices db (update_where (settled change now) known db.invoices)
          else create_invoice provider change now db (truthy change.organisation_id))
    ok (after, invoice_is change.invoice_id change.paid)

  unfoldable pub on_refund_settled :
      Provider → RefundSettled → Database → Result Aborted (Database × Note)
  on_refund_settled provider change db = do
    let paid_by = is_payment provider change.payment_reference
    after ←
        write_invoices db (update_where (refund change.amount_refunded_cents) paid_by db.invoices)
    ok (
      after,
      (if any paid_by db.invoices
          then refunded_against change.amount_refunded_cents change.payment_reference
          else no_invoice_for change.payment_reference),
    )

  -- The `switch` over the kind of the change.
  unfoldable pub act : Provider → BillingChange → ℕ → Database → Result Aborted (Database × Note)
  act provider (payment_settled change) now db = on_payment_settled provider change now db
  act provider (subscription_changed change) now db = on_subscription_changed provider change now db
  act provider (invoice_settled change) now db = on_invoice_settled provider change now db
  act provider (refund_settled change) now db = on_refund_settled provider change db
  act provider (ignored why) now db = ok (db, recorded why)
