-- ===== src/Billing/Webhooks/Tests.antt =====
-- Deliveries of packages/billing/src/webhooks.ts at a concrete database.
use vibefy.Prelude.{
  true, false, not, none, some, List, [], ◌∷◌, Memᴰ, filter, ok, err, ◌≡◌, ◌≢◌, refl, arith,
}
use vibefy.Billing.Entitlements.{active}
use vibefy.Billing.Webhooks.Types.{
  stripe, payment_settled, refund_settled, BillingEvent, EventInterpreter, Note, already_processed,
  InvoiceRow, paid, refunded, received, could_not_apply, bad_subscription, Database, Constraints,
  RefundSettled, PaymentSettled,
}
use vibefy.Billing.Webhooks.Rows.{is_payment, one_live}
use vibefy.Billing.Webhooks.Apply.{
  write_subscriptions, write_invoices, on_payment_settled, on_refund_settled, act,
}
use vibefy.Billing.Webhooks.Deliver.{event_row, record_event, apply_billing_event, deliver}
use vibefy.Billing.Webhooks.Replay.{
  Delivery, run, redelivery_changes_nothing, failed_leaves_no_trace,
}
use vibefy.Billing.Webhooks.Recorded.{IsSettled, run-IsSettled}
use vibefy.Billing.Webhooks.Refunds.{IsAccepted, IsRefunded, refund_never_refused}
use vibefy.Billing.Webhooks.Isolation.{SparesOthers, act-SparesOthers}

abbrev lenient : Constraints
lenient = record {
  accepts_event = λ r. true;
  accepts_subscription = λ r. true;
  accepts_invoice = λ r. true;
}

abbrev strict : Constraints
strict = record lenient { accepts_subscription = λ r. false; accepts_invoice = λ r. true }

abbrev report : InvoiceRow
report = record {
  organisation_id = "org";
  provider = stripe;
  provider_invoice_id = some "in_1";
  provider_payment_reference = some "pi_1";
  amount_due_cents = 19900;
  amount_paid_cents = 19900;
  amount_tax_cents = 0;
  amount_refunded_cents = 0;
  currency = "USD";
  status = paid;
  tax_country = none;
  app_id = some "app";
  plan = some "one_off";
  hosted_invoice_url = none;
  issued_at = some 1;
  paid_at = some 1;
}

abbrev books : Database
books = record { events = []; subscriptions = []; invoices = report ∷ [] }

abbrev opened_by : PaymentSettled
opened_by = record {
  organisation_id = some "org";
  plan = "certified";
  app_id = none;
  recurring = true;
  customer_id = some "cus_1";
  subscription_id = some "sub_1";
  invoice_id = "in_2";
  payment_reference = none;
  amount_total_cents = 4900;
  amount_tax_cents = 0;
  currency = "USD";
  billing_country = none;
}

abbrev event : BillingEvent
event = record { id = "evt_1"; type = "checkout.session.completed"; created_at = 5; payload = "{}" }

abbrev opens : EventInterpreter
opens = record { name = stripe; interpret = λ e. payment_settled opened_by }

abbrev refunds : RefundSettled
refunds = record { payment_reference = "pi_1"; amount_refunded_cents = 50000 }

opens_a_subscription :
    (deliver lenient opens event 9 books).0.subscriptions
    ≡ record {
      organisation_id = "org";
      plan = "certified";
      status = active;
      provider = stripe;
      provider_customer_id = some "cus_1";
      provider_subscription_id = some "sub_1";
      current_period_start = none;
      current_period_end = none;
      cancelled_at = none;
    }
      ∷ []
unfolding deliver apply_billing_event record_event act on_payment_settled write_subscriptions
    one_live
opens_a_subscription = refl

was_received : (deliver lenient opens event 9 books).1 ≢ could_not_apply
unfolding deliver apply_billing_event record_event act on_payment_settled write_subscriptions
    one_live
was_received h = cc

redelivery_changes_nothing_example :
    deliver lenient opens event 20 (run lenient [] (deliver lenient opens event 9 books).0)
    ≡ (run lenient [] (deliver lenient opens event 9 books).0, received true already_processed)
redelivery_changes_nothing_example =
    redelivery_changes_nothing lenient opens event 9 20 books [] was_received

was_refused : (deliver strict opens event 9 books).1 ≡ could_not_apply
unfolding deliver apply_billing_event record_event act on_payment_settled write_subscriptions
    one_live
was_refused = refl

-- The event was recorded in the transaction, and then the subscription was refused.
recorded_before_refusal :
    apply_billing_event strict opens event 9 books
    ≡ err (record {
      error = bad_subscription;
      working = record books { events = event_row stripe event (payment_settled opened_by) ∷ [] };
    })
unfolding apply_billing_event record_event act on_payment_settled write_subscriptions one_live
recorded_before_refusal = refl

failed_leaves_no_trace_example :
    ((deliver strict opens event 9 books).0 ≡ books)
    × ((n : Note)
        → (deliver strict opens event 20 (deliver strict opens event 9 books).0).1
          ≢ received true n)
    × ((mended : Constraints)
        → deliver mended opens event 20 (deliver strict opens event 9 books).0
          ≡ deliver mended opens event 20 books)
failed_leaves_no_trace_example = failed_leaves_no_trace strict opens event 9 20 books was_refused

abbrev twice : List Delivery
twice =
    record { provider = opens; event = event; now = 9 }
    ∷ record { provider = opens; event = event; now = 20 }
    ∷ []

run-IsSettled_example : IsSettled (run lenient twice books).events
run-IsSettled_example = run-IsSettled lenient twice books (λ p id. omega arith, refl)

refund_never_refused_example :
    (after : Database) × (note : Note) × (act lenient stripe (refund_settled refunds) 9 books
      ≡ ok (after, note))
    × IsAccepted lenient after
    × ((r : InvoiceRow)
        → Memᴰ r books.invoices
        → is_payment stripe "pi_1" r ≡ true
        → (r' : InvoiceRow) × Memᴰ r' after.invoices × IsRefunded lenient 50000 r r')
    × (filter (λ (r : InvoiceRow). not (is_payment stripe "pi_1" r)) after.invoices
        ≡ filter (λ (r : InvoiceRow). not (is_payment stripe "pi_1" r)) books.invoices)
    × (after.subscriptions ≡ books.subscriptions)
    × (after.events ≡ books.events)
refund_never_refused_example =
    refund_never_refused lenient stripe refunds 9 books (λ amount r. refl) (refl, refl)

abbrev closed : Database × Note
closed = (
  record books {
    invoices = record report { amount_refunded_cents = 19900; status = refunded } ∷ [];
  },
  Note.refunded_against 50000 "pi_1",
)

refund_closes : act lenient stripe (refund_settled refunds) 9 books ≡ ok closed
unfolding act on_refund_settled write_invoices
refund_closes = refl

act-SparesOthers_example : SparesOthers stripe books closed.0
act-SparesOthers_example =
    act-SparesOthers lenient stripe 9 books (refund_settled refunds) closed refund_closes
