-- ===== src/Billing/Webhooks/Recorded.antt =====
-- The record of the events (`billing_events`) over a sequence of deliveries.
use mathlib.Core.List.{append-nil}
use vibefy.Prelude.{
  ◌==◌, text_eq, eq_sound, and_true, ℕ, ◌≤◌, String, true, false, List, [], ◌∷◌, ◌++◌, any, all,
  filter, length, ◌≡◌, refl, inl, inr, Bool-cases, Result-cases, arith,
}
use vibefy.Prelude.Table.{update_where, filter-append, filter-none, length-filter-update_where}
use vibefy.Billing.Webhooks.Types.{
  Provider, provider_eq, BillingEvent, EventInterpreter, Note, EventRow, Database, Constraints,
}
use vibefy.Billing.Webhooks.Rows.{is_event}
use vibefy.Billing.Webhooks.Deliver.{event_row, handle, apply_billing_event, deliver}
use vibefy.Billing.Webhooks.Replay.{
  Delivery, run, is_event_self, apply-events, deliver-ok, duplicate_lem,
}

-- Every event is in the record once, and has been handled.
abbrev pub IsSettled : List EventRow → Type 0
IsSettled rows =
    ((p : Provider) (id : String) → length (filter (is_event p id) rows) ≤ 1)
    × (all (λ (r : EventRow). r.handled) rows ≡ true)

all_handled :
    (note : Note) (p : Provider) (id : String) (rows : List EventRow) (row : EventRow)
    → all (λ (r : EventRow). r.handled) rows ≡ true
    → is_event p id row ≡ true
    → all
        (λ (r : EventRow). r.handled)
        (update_where (handle note) (is_event p id) (rows ++ row ∷ []))
      ≡ true
all_handled note p id [] row h here = rw here refl
all_handled note p id (r ∷ rows) row h here = elim (Bool-cases (is_event p id r)) [
  | inl reached ↦ rw reached (all_handled note p id rows row (ground arith) here)
  | inr spared ↦ rw spared (ground (arith, all_handled note p id rows row))
]

one_more :
    (p q : Provider) (id x : String) (note : Note) (rows : List EventRow) (row : EventRow)
    → length (filter (is_event q x) rows) ≤ 1
    → (is_event q x row ≡ true → any (is_event q x) rows ≡ false)
    → length (filter (is_event q x) (update_where (handle note) (is_event p id) (rows ++ row ∷ [])))
      ≤ 1
one_more p q id x note rows row h new =
    rw
      (
        length-filter-update_where (is_event q x) (handle note) (is_event p id) (rows ++ row ∷ [])
            (λ r. refl),
        filter-append (is_event q x) rows (row ∷ []),
      )
      (elim (Bool-cases (is_event q x row)) [
        | inl same ↦ rw (same, filter-none (is_event q x) rows (new same)) (omega arith)
        | inr other ↦ rw (other, append-nil (filter (is_event q x) rows)) h
      ])

module _ (database : Constraints) where
  deliver-IsSettled :
      (provider : EventInterpreter) (e : BillingEvent) (now : ℕ) (db : Database)
      → IsSettled db.events
      → IsSettled (deliver database provider e now db).0.events
  deliver-IsSettled provider e now db (once, handled) =
      elim (Bool-cases (any (is_event provider.name e.id) db.events)) [
        | inl there ↦ rw (duplicate_lem database provider e now db there) (once, handled)
        | inr new ↦ elim (Result-cases (apply_billing_event database provider e now db)) [
          | inr (x, thrown) ↦ unfold deliver in rw thrown (once, handled)
          | inl (r, went) ↦
              let p = provider.name in
              let c = provider.interpret e in
              let (note, _, rows) = apply-events database provider e now db r new went in
              rw (deliver-ok database provider e now db r went, rows)
                (
                  λ q x. one_more p q e.id x note db.events (event_row p e c) (once q x) (λ same.
                      let (a, b) = and_true (p == q) (e.id == x) same in
                      rw (← eq_sound p q a, ← eq_sound e.id x b) new),
                  all_handled note p e.id db.events (event_row p e c) handled (is_event_self p e c),
                )
        ]
      ]

  -- After any deliveries, in which events come again and fail to apply, each event is in the record
  -- at most once, and no event is left in it that was not handled to the end.
  pub run-IsSettled :
      (ds : List Delivery) (db : Database)
      → IsSettled db.events
      → IsSettled (run database ds db).events
  run-IsSettled [] db h = h
  run-IsSettled (d ∷ ds) db h =
      run-IsSettled ds (deliver database d.provider d.event d.now db).0
        (deliver-IsSettled d.provider d.event d.now db h)
