-- ===== src/Billing/Webhooks/Replay.antt =====
-- An event that comes twice, and one that could not be applied (packages/billing/src/webhooks.ts).
use vibefy.Prelude.{
  ℕ, String, true, false, Option, none, some, List, [], ◌∷◌, ◌++◌, any, if◌then◌else◌, text_eq,
  eq_refl, ok, >>=-eq-ok, ◌≡◌, ◌≢◌, refl, ap, ◌∙◌, inl, inr, Bool-cases, Option-cases, Result-cases,
  arith,
}
use vibefy.Prelude.Table.{update_where, any-append, any-update_where}
use vibefy.Billing.Webhooks.Types.{
  Provider, provider_eq, BillingChange, payment_settled, subscription_changed, invoice_settled,
  refund_settled, ignored, BillingEvent, EventInterpreter, Note, already_processed, SubscriptionRow,
  InvoiceRow, Response, received, could_not_apply, Database, Constraints, PaymentSettled,
  SubscriptionChanged, InvoiceSettled, AppliedEvent,
}
use vibefy.Billing.Webhooks.Rows.{is_event, is_subscription, is_invoice, truthy}
use vibefy.Billing.Webhooks.Apply.{
  write_subscriptions, write_invoices, settle_for, on_payment_settled, create_subscription,
  on_subscription_changed, create_invoice, on_invoice_settled, on_refund_settled, act,
}
use vibefy.Billing.Webhooks.Deliver.{
  event_row, handle, record_event, applied, apply_billing_event, deliver,
}

abbrev pub IsRecorded : Provider → String → Database → Type 0
IsRecorded p id db = any (is_event p id) db.events ≡ true

pub is_event_self :
    (p : Provider) (e : BillingEvent) (c : BillingChange) → is_event p e.id (event_row p e c) ≡ true
is_event_self p e c = rw (eq_refl p, eq_refl e.id) refl

-- A sequence of deliveries, each by its provider at its time.
pub record Delivery : Type 0 where
  pub provider : EventInterpreter
  pub event : BillingEvent
  pub now : ℕ

module _ (database : Constraints) where
  pub write_subscriptions-ok :
      (db : Database) (rows : List SubscriptionRow) {after : Database}
      → write_subscriptions database db rows ≡ ok after
      → after ≡ record db { subscriptions = rows }
  unfolding write_subscriptions
  write_subscriptions-ok db rows h = ground arith

  pub write_invoices-ok :
      (db : Database) (rows : List InvoiceRow) {after : Database}
      → write_invoices database db rows ≡ ok after
      → after ≡ record db { invoices = rows }
  unfolding write_invoices
  write_invoices-ok db rows h = ground arith

  settle_for-events :
      (p : Provider) (c : PaymentSettled) (now : ℕ) (db : Database) (o : Option String)
      (r : Database × Note)
      → settle_for database p c now db o ≡ ok r
      → r.0.events ≡ db.events
  settle_for-events p c now db none r h = cc
  settle_for-events p c now db (some o) r h =
      elim (Option-cases (if c.recurring then truthy c.subscription_id else none)) [
        | inl e ↦
            let (d, w, k) = >>=-eq-ok (write_invoices database db _) _ (rw e at h) in
            cc (k, write_invoices-ok db _ w)
        | inr (id, e) ↦
            let (d, w, k) = >>=-eq-ok (write_subscriptions database db _) _ (rw e at h) in
            cc (k, write_subscriptions-ok db _ w)
      ]

  create_subscription-events :
      (p : Provider) (c : SubscriptionChanged) (db : Database) (o : Option String)
      (r : Database × Note)
      → create_subscription database p c db o ≡ ok r
      → r.0.events ≡ db.events
  create_subscription-events p c db none r h = cc
  create_subscription-events p c db (some o) r h =
      let (d, w, k) = >>=-eq-ok (write_subscriptions database db _) _ h in
      cc (k, write_subscriptions-ok db _ w)

  create_invoice-events :
      (p : Provider) (c : InvoiceSettled) (now : ℕ) (db : Database) (o : Option String)
      {after : Database}
      → create_invoice database p c now db o ≡ ok after
      → after.events ≡ db.events
  create_invoice-events p c now db none h = cc
  create_invoice-events p c now db (some o) h = cc (write_invoices-ok db _ h)

  -- What a change does leaves the record of the events alone.
  act-events :
      (p : Provider) (c : BillingChange) (now : ℕ) (db : Database) (r : Database × Note)
      → act database p c now db ≡ ok r
      → r.0.events ≡ db.events
  unfolding act on_payment_settled on_subscription_changed on_invoice_settled on_refund_settled
  act-events p (payment_settled c) now db r h = settle_for-events p c now db _ r h
  act-events p (subscription_changed c) now db r h =
      elim (Bool-cases (any (is_subscription p c.subscription_id) db.subscriptions)) [
        | inl known ↦
            let (d, w, k) = >>=-eq-ok (write_subscriptions database db _) _ (rw known at h) in
            cc (k, write_subscriptions-ok db _ w)
        | inr new ↦ create_subscription-events p c db _ r (rw new at h)
      ]
  act-events p (invoice_settled c) now db r h =
      elim (Bool-cases (any (is_invoice p c.invoice_id) db.invoices)) [
        | inl known ↦
            let (d, w, k) = >>=-eq-ok (write_invoices database db _) _ (rw known at h) in
            cc (k, write_invoices-ok db _ w)
        | inr new ↦
            let (d, w, k) =
              >>=-eq-ok (create_invoice database p c now db (truthy c.organisation_id)) _
                (rw new at h) in
            cc (k, create_invoice-events p c now db _ w)
      ]
  act-events p (refund_settled c) now db r h =
      let (d, w, k) = >>=-eq-ok (write_invoices database db _) _ h in
      cc (k, write_invoices-ok db _ w)
  act-events p (ignored why) now db r h = cc

  record_event-ok :
      (p : Provider) (e : BillingEvent) (c : BillingChange) (db : Database) {after : Database}
      → record_event database p e c db ≡ ok after
      → after ≡ record db { events = db.events ++ event_row p e c ∷ [] }
  unfolding record_event
  record_event-ok p e c db h = ground arith

  -- What an application that went through did to the record: nothing to an event that was there, and
  -- one handled row, behind the others, for one that was not.
  pub apply-events :
      (provider : EventInterpreter) (e : BillingEvent) (now : ℕ) (db : Database)
      (r : Database × AppliedEvent)
      → any (is_event provider.name e.id) db.events ≡ false
      → apply_billing_event database provider e now db ≡ ok r
      → (note : Note) × (r.1 ≡ applied e false note)
        × (r.0.events
            ≡ update_where
                (handle note)
                (is_event provider.name e.id)
                (db.events ++ event_row provider.name e (provider.interpret e) ∷ []))
  unfolding apply_billing_event
  apply-events provider e now db r new h =
      let p = provider.name in
      let c = provider.interpret e in
      let (d, w, k) = >>=-eq-ok (record_event database p e c db) _ (rw new at h) in
      let (a, acted, last) = >>=-eq-ok (act database p c now d) _ k in
      let same : a.0.events ≡ db.events ++ event_row p e c ∷ [] =
        act-events p c now d a acted
        ∙ ap (λ (x : Database). x.events) (record_event-ok p e c db w) in
      (a.1, cc last, cc (last, ap (update_where (handle a.1) (is_event p e.id)) same))

  abbrev pub run : List Delivery → Database → Database
  run [] db = db
  run (d ∷ ds) db = run ds (deliver database d.provider d.event d.now db).0

  pub duplicate_lem :
      (provider : EventInterpreter) (e : BillingEvent) (now : ℕ) (db : Database)
      → IsRecorded provider.name e.id db
      → deliver database provider e now db ≡ (db, received true already_processed)
  unfolding deliver apply_billing_event
  duplicate_lem provider e now db h = rw h refl

  -- What is recorded stays recorded.
  deliver-IsRecorded :
      (provider : EventInterpreter) (e : BillingEvent) (now : ℕ) (db : Database) (p : Provider)
      (id : String)
      → IsRecorded p id db
      → IsRecorded p id (deliver database provider e now db).0
  deliver-IsRecorded provider e now db p id h =
      elim (Bool-cases (any (is_event provider.name e.id) db.events)) [
        | inl there ↦ rw (duplicate_lem provider e now db there) h
        | inr new ↦ elim (Result-cases (apply_billing_event database provider e now db)) [
          | inr (x, failed) ↦ unfold deliver in rw failed h
          | inl (r, went) ↦
              let (note, _, rows) = apply-events provider e now db r new went in
              let row = event_row provider.name e (provider.interpret e) in
              unfold deliver in
              rw
                (
                  went,
                  rows,
                  any-update_where (is_event p id) (handle note) (is_event provider.name e.id)
                      (db.events ++ row ∷ []) (λ x. refl),
                  any-append (is_event p id) db.events (row ∷ []),
                  h,
                )
                refl
        ]
      ]

  run-IsRecorded :
      (ds : List Delivery) (db : Database) (p : Provider) (id : String)
      → IsRecorded p id db
      → IsRecorded p id (run ds db)
  run-IsRecorded [] db p id h = h
  run-IsRecorded (d ∷ ds) db p id h =
      run-IsRecorded ds _ p id (deliver-IsRecorded d.provider d.event d.now db p id h)

  -- What was received is recorded.
  received-IsRecorded :
      (provider : EventInterpreter) (e : BillingEvent) (now : ℕ) (db : Database)
      → (deliver database provider e now db).1 ≢ could_not_apply
      → IsRecorded provider.name e.id (deliver database provider e now db).0
  received-IsRecorded provider e now db answered =
      elim (Bool-cases (any (is_event provider.name e.id) db.events)) [
        | inl there ↦ rw (duplicate_lem provider e now db there) there
        | inr new ↦ elim (Result-cases (apply_billing_event database provider e now db)) [
          | inr (x, failed) ↦ absurd (answered (unfold deliver in rw failed refl))
          | inl (r, went) ↦
              let p = provider.name in
              let (note, _, rows) = apply-events provider e now db r new went in
              let row = event_row p e (provider.interpret e) in
              unfold deliver in
              rw
                (
                  went,
                  rows,
                  any-update_where (is_event p e.id) (handle note) (is_event p e.id)
                      (db.events ++ row ∷ []) (λ x. refl),
                  any-append (is_event p e.id) db.events (row ∷ []),
                  new,
                  is_event_self p e (provider.interpret e),
                )
                refl
        ]
      ]

  -- An event that was received (and not answered with an error) is applied once: whatever is
  -- delivered in between, by any provider, when it comes again it changes nothing, and the answer says
  -- that it is a duplicate.
  pub redelivery_changes_nothing :
      (provider : EventInterpreter) (e : BillingEvent) (now later : ℕ) (db : Database)
      (between : List Delivery)
      → (deliver database provider e now db).1 ≢ could_not_apply
      → deliver database provider e later (run between (deliver database provider e now db).0)
        ≡ (run between (deliver database provider e now db).0, received true already_processed)
  redelivery_changes_nothing provider e now later db between answered =
      duplicate_lem provider e later _ (
        run-IsRecorded between _ provider.name e.id
          (received-IsRecorded provider e now db answered))

  pub deliver-ok :
      (provider : EventInterpreter) (e : BillingEvent) (now : ℕ) (db : Database)
      (r : Database × AppliedEvent)
      → apply_billing_event database provider e now db ≡ ok r
      → deliver database provider e now db ≡ (r.0, received r.1.duplicate r.1.note)
  unfolding deliver
  deliver-ok provider e now db r went = rw went refl

  failed-new :
      (provider : EventInterpreter) (e : BillingEvent) (now : ℕ) (db : Database)
      → (deliver database provider e now db).1 ≡ could_not_apply
      → any (is_event provider.name e.id) db.events ≡ false
  failed-new provider e now db failed =
      elim (Bool-cases (any (is_event provider.name e.id) db.events)) [
        | inl there ↦
            cc (
              failed,
              ap (λ (x : Database × Response). x.1) (duplicate_lem provider e now db there),
            )
        | inr new ↦ new
      ]

  new-ne-duplicate :
      (provider : EventInterpreter) (e : BillingEvent) (now : ℕ) (db : Database) (n : Note)
      → any (is_event provider.name e.id) db.events ≡ false
      → (deliver database provider e now db).1 ≢ received true n
  unfolding deliver
  new-ne-duplicate provider e now db n new =
      elim (Result-cases (apply_billing_event database provider e now db)) [
        | inr (x, failed) ↦ λ h. cc (rw failed at h)
        | inl (r, went) ↦
            let (note, said, _) = apply-events provider e now db r new went in
            λ h. cc (rw (went, said) at h)
      ]

  -- An event that could not be applied has left no trace, in the record of the events either, whatever
  -- its transaction had written before the database refused a statement: its next delivery is not taken
  -- for a duplicate, and does, also where the database by then accepts more, what a first one would.
  pub failed_leaves_no_trace :
      (provider : EventInterpreter) (e : BillingEvent) (now later : ℕ) (db : Database)
      → (deliver database provider e now db).1 ≡ could_not_apply
      → ((deliver database provider e now db).0 ≡ db)
        × ((n : Note)
            → (deliver database provider e later (deliver database provider e now db).0).1
              ≢ received true n)
        × ((mended : Constraints)
            → deliver mended provider e later (deliver database provider e now db).0
              ≡ deliver mended provider e later db)
  failed_leaves_no_trace provider e now later db failed =
      let back : (deliver database provider e now db).0 ≡ db =
        elim (Result-cases (apply_billing_event database provider e now db)) [
          | inr (x, thrown) ↦ unfold deliver in rw thrown refl
          | inl (r, went) ↦
              cc (
                failed,
                ap (λ (x : Database × Response). x.1) (deliver-ok provider e now db r went),
              )
        ] in
      (
        back,
        (λ n.
            rw back (new-ne-duplicate provider e later db n (failed-new provider e now db failed))),
        λ mended. ap (deliver mended provider e later) back,
      )
