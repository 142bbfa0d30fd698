-- ===== src/Billing/Webhooks/Deliver.antt =====
-- The delivery of an event (`applyBillingEvent` of packages/billing/src/webhooks.ts): recorded first,
-- acted on second, in the transaction of `writeAsService` (apps/web/lib/sql.ts), which a thrown error
-- rolls back, and answered as the route does (apps/web/app/api/stripe/webhook/route.ts).
use vibefy.Prelude.{
  ℕ, String, Bool, true, false, not, Option, none, some, [], ◌∷◌, ◌++◌, any, if◌then◌else◌, text_eq,
  Result, ok, err, ◌>>=◌, ◌>>◌, throw_if,
}
use vibefy.Prelude.Table.{update_where}
use vibefy.Billing.Webhooks.Types.{
  Provider, provider_eq, BillingChange, payment_settled, subscription_changed, invoice_settled,
  refund_settled, ignored, BillingEvent, EventInterpreter, Note, already_processed, EventRow,
  AppliedEvent, Response, received, could_not_apply, Database, Constraints, Aborted, bad_event,
}
use vibefy.Billing.Webhooks.Rows.{is_event}
use vibefy.Billing.Webhooks.Apply.{act, aborted}

abbrev pub organisation_of : BillingChange → Option String
organisation_of (payment_settled change) = change.organisation_id
organisation_of (subscription_changed change) = change.organisation_id
organisation_of (invoice_settled change) = change.organisation_id
organisation_of (refund_settled change) = none
organisation_of (ignored why) = none

abbrev pub event_row : Provider → BillingEvent → BillingChange → EventRow
event_row provider event change = record {
  provider = provider;
  provider_event_id = event.id;
  event_type = event.type;
  organisation_id = organisation_of change;
  occurred_at = event.created_at;
  payload = event.payload;
  handled = false;
  handler_note = none;
}

abbrev pub handle : Note → EventRow → EventRow
handle note r = record r { handled = true; handler_note = some note }

abbrev pub mark_handled : Provider → String → Database → Note → Database
mark_handled provider id db note = record db {
  events = update_where (handle note) (is_event provider id) db.events;
}

abbrev pub applied : BillingEvent → Bool → Note → AppliedEvent
applied event duplicate note = record {
  event_id = event.id;
  type = event.type;
  duplicate = duplicate;
  note = note;
}

-- The tables as others see them, and as the open transaction does.
pub record Session : Type 0 where
  pub durable : Database
  pub working : Database

abbrev pub begin : Database → Session
begin db = record { durable = db; working = db }

abbrev pub commit : Session → Database
commit s = s.working

abbrev pub rollback : Session → Database
rollback s = s.durable

-- The rest of `writeAsService`, from what the work gave, with the answer of the route.
abbrev pub concluded : Session → Result Aborted (Database × AppliedEvent) → Database × Response
concluded s (ok (after, a)) = (commit (record s { working = after }), received a.duplicate a.note)
concluded s (err e) = (rollback (record s { working = e.working }), could_not_apply)

module _ (database : Constraints) where
  unfoldable pub record_event :
      Provider → BillingEvent → BillingChange → Database → Result Aborted Database
  record_event provider event change db = do
    throw_if (not (database.accepts_event (event_row provider event change))) (aborted db bad_event)
    ok (record db { events = db.events ++ event_row provider event change ∷ [] })

  unfoldable pub apply_billing_event :
      EventInterpreter → BillingEvent → ℕ → Database → Result Aborted (Database × AppliedEvent)
  apply_billing_event provider event now db =
      let change = provider.interpret event in
      if any (is_event provider.name event.id) db.events
      then ok (db, applied event true already_processed)
      else (do
        written ← record_event provider.name event change db
        after ← act database provider.name change now written
        ok (mark_handled provider.name event.id after.0 after.1, applied event false after.1))

  unfoldable pub deliver : EventInterpreter → BillingEvent → ℕ → Database → Database × Response
  deliver provider event now db =
      let session = begin db in
      concluded session (apply_billing_event provider event now session.working)
