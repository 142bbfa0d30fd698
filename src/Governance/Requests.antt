-- ===== src/Governance/Requests.antt =====
-- packages/governance/src/requests.ts: a request of a data subject, its moves and its deadline.
pub mod Moves
pub mod Deadline
mod Tests
use vibefy.Prelude.{
  ℕ, suc, ◌+◌, ◌-◌, ◌*◌, ◌/◌, Bool, true, false, List, [], ◌∷◌, includes, filter, ltb, leb,
  if◌then◌else◌, ◌==◌, Eq, enum_eq, ◌≡◌, arith,
}
use vibefy.Prelude.Int.{ℤ, neg_ℕ}
use vibefy.Prelude.Time.{Date, day_ms, add_days}

pub data RequestStatus : Type 0 where
  received verifying in_progress completed refused : RequestStatus

abbrev pub position : RequestStatus → ℕ
position received = 0
position verifying = 1
position in_progress = 2
position completed = 3
position refused = 4

pub position_injective : (a b : RequestStatus) → position a ≡ position b → a ≡ b
position_injective a b h = ground arith

instance abbrev pub status_eq : Eq RequestStatus
status_eq = enum_eq position position_injective

abbrev pub response_days : ℕ
response_days = 30

abbrev pub due_date_for : Date → ℕ → Date
due_date_for created_at days = add_days created_at days

abbrev pub is_closed : RequestStatus → Bool
is_closed completed = true
is_closed refused = true
is_closed _ = false

pub is_overdue : Date → RequestStatus → Date → Bool
is_overdue due_at status now = if is_closed status then false else ltb due_at now

-- `Math.ceil` of the days left, which is below zero once a whole day is past.
pub days_remaining : Date → Date → ℤ
days_remaining due_at now =
    if leb now due_at
    then ℤ.pos ((due_at - now + (day_ms - 1)) / day_ms)
    else neg_ℕ ((now - due_at) / day_ms)

-- `TRANSITIONS`.
pub transitions : RequestStatus → List RequestStatus
transitions received = verifying ∷ in_progress ∷ refused ∷ []
transitions verifying = in_progress ∷ refused ∷ []
transitions in_progress = completed ∷ refused ∷ []
transitions completed = []
transitions refused = []

pub can_transition : RequestStatus → RequestStatus → Bool
can_transition from to = includes (transitions from) to

-- `Object.keys(TRANSITIONS)`.
abbrev statuses : List RequestStatus
statuses = received ∷ verifying ∷ in_progress ∷ completed ∷ refused ∷ []

pub statuses_that_may_become : RequestStatus → List RequestStatus
statuses_that_may_become to = filter (λ from. can_transition from to) statuses
