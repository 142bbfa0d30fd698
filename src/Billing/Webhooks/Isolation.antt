-- ===== src/Billing/Webhooks/Isolation.antt =====
-- Two providers in one database (packages/billing/src/webhooks.ts).
use vibefy.Prelude.{
  ℕ, String, Bool, true, false, not, ◌&&◌, Option, none, some, List, [], ◌∷◌, ◌++◌, any, filter,
  if◌then◌else◌, ◌==◌, text_eq, eq_refl, ok, ◌>>=◌, >>=-eq-ok, ◌≡◌, refl, inl, inr, Bool-cases,
  Option-cases, arith,
}
use vibefy.Prelude.Table.{update_where, upsert, filter-update_where, filter-upsert, filter-snoc}
use vibefy.Billing.Webhooks.Types.{
  Provider, provider_eq, BillingChange, payment_settled, subscription_changed, invoice_settled,
  refund_settled, ignored, Note, SubscriptionRow, InvoiceRow, Database, Constraints, PaymentSettled,
  SubscriptionChanged, InvoiceSettled,
}
use vibefy.Billing.Webhooks.Rows.{
  truthy, is_subscription, is_invoice, is_payment, subscribed, activate, bought, paid_again,
  changed, created, settled, invoiced, refund,
}
use vibefy.Billing.Webhooks.Apply.{
  write_subscriptions, write_invoices, settle_for, on_payment_settled, create_subscription,
  on_subscription_changed, create_invoice, on_invoice_settled, on_refund_settled, act,
}
use vibefy.Billing.Webhooks.Replay.{write_subscriptions-ok, write_invoices-ok}

abbrev pub others_subscriptions : Provider → Database → List SubscriptionRow
others_subscriptions p db = filter (λ (r : SubscriptionRow). not (r.provider == p)) db.subscriptions

abbrev pub others_invoices : Provider → Database → List InvoiceRow
others_invoices p db = filter (λ (r : InvoiceRow). not (r.provider == p)) db.invoices

-- The rows of every other provider are the same.
abbrev pub SparesOthers : Provider → Database → Database → Type 0
SparesOthers p before after =
    (others_subscriptions p after ≡ others_subscriptions p before)
    × (others_invoices p after ≡ others_invoices p before)

ours : (a b : Bool) → (a && b) ≡ true → not a ≡ false
ours a b h = ground arith

module _ (database : Constraints) (p : Provider) (now : ℕ) (db : Database) where
  after_subscriptions :
      (rows : List SubscriptionRow) (n : Note) (r : Database × Note)
      → filter (λ (x : SubscriptionRow). not (x.provider == p)) rows ≡ others_subscriptions p db
      → (write_subscriptions database db rows >>= λ after. ok (after, n)) ≡ ok r
      → SparesOthers p db r.0
  after_subscriptions rows n r same h =
      let (d, w, k) = >>=-eq-ok (write_subscriptions database db rows) (λ after. ok (after, n)) h in
      let e : r.0 ≡ record db { subscriptions = rows } =
        cc (k, write_subscriptions-ok database db rows w) in
      rw e (same, refl)

  after_invoices :
      (rows : List InvoiceRow) (n : Note) (r : Database × Note)
      → filter (λ (x : InvoiceRow). not (x.provider == p)) rows ≡ others_invoices p db
      → (write_invoices database db rows >>= λ after. ok (after, n)) ≡ ok r
      → SparesOthers p db r.0
  after_invoices rows n r same h =
      let (d, w, k) = >>=-eq-ok (write_invoices database db rows) (λ after. ok (after, n)) h in
      let e : r.0 ≡ record db { invoices = rows } = cc (k, write_invoices-ok database db rows w) in
      rw e (refl, same)

  unchanged : (r : Database × Note) → r.0 ≡ db → SparesOthers p db r.0
  unchanged r e = rw e (refl, refl)

  mine : not (p == p) ≡ false
  mine = rw (eq_refl p) refl

  settle_for-SparesOthers :
      (c : PaymentSettled) (o : Option String) (r : Database × Note)
      → settle_for database p c now db o ≡ ok r
      → SparesOthers p db r.0
  settle_for-SparesOthers c none r h = unchanged r cc
  settle_for-SparesOthers c (some o) r h =
      elim (Option-cases (if c.recurring then truthy c.subscription_id else none)) [
        | inl e ↦
            after_invoices
              (upsert (paid_again c now) (is_invoice p c.invoice_id) (bought p c o now) db.invoices)
              _ r
              (filter-upsert (λ (x : InvoiceRow). not (x.provider == p)) (paid_again c now)
                (is_invoice p c.invoice_id) (bought p c o now) db.invoices (λ x. refl)
                (λ x. ours (x.provider == p) _) mine)
              (rw e at h)
        | inr (id, e) ↦
            after_subscriptions
              (upsert (activate c) (is_subscription p id) (subscribed p c o id) db.subscriptions) _
              r
              (filter-upsert (λ (x : SubscriptionRow). not (x.provider == p)) (activate c)
                (is_subscription p id) (subscribed p c o id) db.subscriptions (λ x. refl)
                (λ x. ours (x.provider == p) _) mine)
              (rw e at h)
      ]

  create_subscription-SparesOthers :
      (c : SubscriptionChanged) (o : Option String) (r : Database × Note)
      → create_subscription database p c db o ≡ ok r
      → SparesOthers p db r.0
  create_subscription-SparesOthers c none r h = unchanged r cc
  create_subscription-SparesOthers c (some o) r h =
      after_subscriptions (db.subscriptions ++ created p c o ∷ []) _ r
        (filter-snoc (λ (x : SubscriptionRow). not (x.provider == p)) db.subscriptions
          (created p c o) mine)
        h

  create_invoice-SparesOthers :
      (c : InvoiceSettled) (o : Option String) (n : Note) (r : Database × Note)
      → (create_invoice database p c now db o >>= λ after. ok (after, n)) ≡ ok r
      → SparesOthers p db r.0
  create_invoice-SparesOthers c none n r h = unchanged r cc
  create_invoice-SparesOthers c (some o) n r h =
      after_invoices (db.invoices ++ invoiced p c o now ∷ []) n r
        (filter-snoc (λ (x : InvoiceRow). not (x.provider == p)) db.invoices (invoiced p c o now)
          mine)
        h

  -- An event of one provider changes no subscription and no invoice of another, whatever the ids in it.
  pub act-SparesOthers :
      (c : BillingChange) (r : Database × Note)
      → act database p c now db ≡ ok r
      → SparesOthers p db r.0
  unfolding act on_payment_settled on_subscription_changed on_invoice_settled on_refund_settled
  act-SparesOthers (payment_settled c) r h =
      settle_for-SparesOthers c (truthy c.organisation_id) r h
  act-SparesOthers (subscription_changed c) r h =
      elim (Bool-cases (any (is_subscription p c.subscription_id) db.subscriptions)) [
        | inl known ↦
            after_subscriptions
              (update_where (changed c now) (is_subscription p c.subscription_id) db.subscriptions)
              _ r
              (filter-update_where (λ (x : SubscriptionRow). not (x.provider == p)) (changed c now)
                (is_subscription p c.subscription_id) db.subscriptions (λ x. refl)
                (λ x. ours (x.provider == p) _))
              (rw known at h)
        | inr new ↦ create_subscription-SparesOthers c (truthy c.organisation_id) r (rw new at h)
      ]
  act-SparesOthers (invoice_settled c) r h =
      elim (Bool-cases (any (is_invoice p c.invoice_id) db.invoices)) [
        | inl known ↦
            after_invoices (update_where (settled c now) (is_invoice p c.invoice_id) db.invoices) _
              r
              (filter-update_where (λ (x : InvoiceRow). not (x.provider == p)) (settled c now)
                (is_invoice p c.invoice_id) db.invoices (λ x. refl) (λ x. ours (x.provider == p) _))
              (rw known at h)
        | inr new ↦ create_invoice-SparesOthers c (truthy c.organisation_id) _ r (rw new at h)
      ]
  act-SparesOthers (refund_settled c) r h =
      after_invoices
        (update_where (refund c.amount_refunded_cents) (is_payment p c.payment_reference)
          db.invoices)
        _ r
        (filter-update_where (λ (x : InvoiceRow). not (x.provider == p))
          (refund c.amount_refunded_cents) (is_payment p c.payment_reference) db.invoices
          (λ x. refl) (λ x. ours (x.provider == p) _))
        h
  act-SparesOthers (ignored why) r h = unchanged r cc
