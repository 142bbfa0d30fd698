-- ===== src/Governance/Requests/Deadline.antt =====
-- The deadline of a request (packages/governance/src/requests.ts).
use vibefy.Prelude.{ℕ, ◌+◌, ◌*◌, ◌≤◌, ◌<◌, true, false, ◌≡◌, ◌↔◌, arith}
use vibefy.Prelude.Int.{pos, pos_part}
use vibefy.Prelude.Time.{Date, day_ms}
use vibefy.Governance.Requests.{RequestStatus, is_closed, due_date_for, is_overdue, days_remaining}

-- A new request has as many days left as it was given. From then on the days left are the whole days
-- that cover the time to the deadline; a request that is still open is overdue exactly when the
-- deadline is past, and then no day is left.
deadline_lem :
    (created now : Date) (days : ℕ) (status : RequestStatus)
    → let due = due_date_for created days in
      (days_remaining due created ≡ pos days)
      × ((now ≤ due
            → (due ≤ now + pos_part (days_remaining due now) * day_ms)
              × (now + pos_part (days_remaining due now) * day_ms < due + day_ms))
          × ((is_closed status ≡ false → (is_overdue due status now ≡ true) ↔ (due < now))
              × (is_overdue due status now ≡ true → pos_part (days_remaining due now) ≡ 0)))
unfolding days_remaining is_overdue
deadline_lem created now days status = (
  ground arith,
  (
    (λ h. (ground arith, ground arith)),
    ((λ still_open. rw still_open (λ h. ground arith, λ h. ground arith)), λ h. ground arith),
  ),
)
