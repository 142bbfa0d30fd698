-- ===== src/Billing/Webhooks/Refunds.antt =====
-- What a refund does to the invoices (`onRefundSettled` of packages/billing/src/webhooks.ts).
use vibefy.Prelude.{
  ℕ, ◌≤◌, min, Bool, true, not, List, [], ◌∷◌, Memᴰ, any, all, if◌then◌else◌, ok, mem_map←, filter,
  ◌<◌, ◌≡◌, refl, inl, inr, Bool-cases, arith,
}
use vibefy.Prelude.Table.{set_if, set_if-set, update_where, filter-update_where}
use vibefy.Billing.Webhooks.Types.{
  Provider, RefundSettled, refund_settled, InvoiceRow, refunded, Database, Constraints, Note,
  refunded_against, no_invoice_for,
}
use vibefy.Billing.Webhooks.Rows.{is_payment, within_payment, refund}
use vibefy.Billing.Webhooks.Apply.{write_invoices, on_refund_settled, act}

module _ (database : Constraints) where
  -- What the database otherwise asks of an invoice is not about its refund.
  abbrev pub IgnoresRefunds : Type 0
  IgnoresRefunds =
      (amount : ℕ) (r : InvoiceRow)
      → database.accepts_invoice (refund amount r) ≡ database.accepts_invoice r

  abbrev pub IsAccepted : Database → Type 0
  IsAccepted db =
      (all database.accepts_invoice db.invoices ≡ true) × (all within_payment db.invoices ≡ true)

  refund-accepted :
      (holds : InvoiceRow → Bool) (amount : ℕ) (rows : List InvoiceRow)
      → IgnoresRefunds
      → all database.accepts_invoice rows ≡ true
      → all database.accepts_invoice (update_where (refund amount) holds rows) ≡ true
  refund-accepted holds amount [] ignores h = refl
  refund-accepted holds amount (r ∷ rows) ignores h = elim (Bool-cases (holds r)) [
    | inl reached ↦
        rw (reached, ignores amount r) (ground (arith, refund-accepted holds amount rows ignores))
    | inr spared ↦ rw spared (ground (arith, refund-accepted holds amount rows ignores))
  ]

  refund-within :
      (holds : InvoiceRow → Bool) (amount : ℕ) (rows : List InvoiceRow)
      → all within_payment rows ≡ true
      → all within_payment (update_where (refund amount) holds rows) ≡ true
  refund-within holds amount [] h = refl
  refund-within holds amount (r ∷ rows) h = elim (Bool-cases (holds r)) [
    | inl reached ↦ rw reached (ground (arith, refund-within holds amount rows))
    | inr spared ↦ rw spared (ground (arith, refund-within holds amount rows))
  ]

  -- The row of an invoice after a refund of its payment.
  abbrev pub IsRefunded : ℕ → InvoiceRow → InvoiceRow → Type 0
  IsRefunded amount before after =
      (after.amount_refunded_cents ≡ min amount before.amount_paid_cents)
      × (after.amount_paid_cents ≡ before.amount_paid_cents)
      × (before.amount_paid_cents ≤ amount → after.status ≡ refunded)
      × (amount < before.amount_paid_cents → after.status ≡ before.status)

  refund-IsRefunded : (amount : ℕ) (r : InvoiceRow) → IsRefunded amount r (refund amount r)
  refund-IsRefunded amount r = (refl, refl, λ h. ground arith, λ h. ground arith)

  -- Where the database's other constraints are not about refunds, a refund is never refused, however
  -- large the amount: each invoice of that payment then shows the amount, or what was paid if that is
  -- less, and is marked as refunded where the amount is all that was paid; what was paid, every other
  -- invoice, the subscriptions and the events are as they were.
  pub refund_never_refused :
      (p : Provider) (change : RefundSettled) (now : ℕ) (db : Database)
      → IgnoresRefunds
      → IsAccepted db
      → (after : Database) × (note : Note) × (act database p (refund_settled change) now db
          ≡ ok (after, note))
        × IsAccepted after
        × ((r : InvoiceRow)
            → Memᴰ r db.invoices
            → is_payment p change.payment_reference r ≡ true
            → (r' : InvoiceRow) × Memᴰ r' after.invoices
              × IsRefunded change.amount_refunded_cents r r')
        × (filter (λ (r : InvoiceRow). not (is_payment p change.payment_reference r)) after.invoices
            ≡ filter
                (λ (r : InvoiceRow). not (is_payment p change.payment_reference r))
                db.invoices)
        × (after.subscriptions ≡ db.subscriptions)
        × (after.events ≡ db.events)
  unfolding act on_refund_settled write_invoices
  refund_never_refused p change now db ignores (accepted, within) =
      let amount = change.amount_refunded_cents in
      let paid_by = is_payment p change.payment_reference in
      let rows = update_where (refund amount) paid_by db.invoices in
      let fine = refund-accepted paid_by amount db.invoices ignores accepted in
      let inside = refund-within paid_by amount db.invoices within in
      (
        record db { invoices = rows },
        (if any paid_by db.invoices
            then refunded_against amount change.payment_reference
            else no_invoice_for change.payment_reference),
        rw (fine, inside) refl,
        (fine, inside),
        λ r m b. (
          refund amount r,
          rw (set_if-set (refund amount) paid_by r b) at
              (mem_map← (set_if (refund amount) paid_by) m),
          refund-IsRefunded amount r,
        ),
        filter-update_where (λ (r : InvoiceRow). not (paid_by r)) (refund amount) paid_by
            db.invoices (λ r. refl) (λ r b. rw b refl),
        refl,
        refl,
      )
