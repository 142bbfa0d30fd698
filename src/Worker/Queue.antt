-- ===== src/Worker/Queue.antt =====
-- apps/worker/src/queue.ts: the table of the assessment requests, whose statements are updates of the
-- rows that their `where` names. Times are in milliseconds. A transaction is one step; the rows that
-- another transaction has locked at that moment are a parameter of the claim. `failRequest` is two
-- statements with no transaction around them: the table that the first one sees is a parameter of its
-- own, since others may write between the two.
pub mod Rows
pub mod Claim
pub mod Attempts
pub mod Reclaim
mod Tests
use Prim.Native.String.{slice}
use vibefy.Prelude.{
  ℕ, suc, ◌+◌, ◌*◌, String, Bool, true, false, not, ◌&&◌, Option, none, some, List, [], ◌∷◌, map,
  any, filter, find?, includes, length, leb, ltb, if◌then◌else◌, ◌==◌, text_eq, Result, ok, err, Eq,
  enum_eq, ◌≡◌, arith,
}
use vibefy.Billing.Entitlements.{AssessmentDepth}

-- `request_status` of the database.
pub data RequestStatus : Type 0 where
  queued claimed completed failed cancelled refused : RequestStatus

-- The texts that are written to `last_error`: what was thrown, or a sentence of the reclaim sweep.
pub data LastError : Type 0 where
  thrown : String → LastError
  requeued_after : ℕ → LastError
  no_attempts_left : LastError

pub record Request : Type 0 where
  pub id : String
  pub app_id : String
  pub organisation_id : String
  pub requested_by : Option String
  pub depth : AssessmentDepth
  pub max_run_cost : ℕ
  pub status : RequestStatus
  pub attempts : ℕ
  pub created_at : ℕ
  pub claimed_at : Option ℕ
  pub completed_at : Option ℕ
  pub assessment_id : Option String
  pub last_error : Option LastError

pub record ClaimedRequest : Type 0 where
  pub id : String
  pub app_id : String
  pub organisation_id : String
  pub requested_by : Option String
  pub depth : AssessmentDepth
  pub max_run_cost : ℕ
  pub attempts : ℕ

abbrev pub is_queued : Request → Bool
is_queued r = elim r.status [ RequestStatus.queued ↦ true | _ ↦ false ]

abbrev pub is_claimed : Request → Bool
is_claimed r = elim r.status [ RequestStatus.claimed ↦ true | _ ↦ false ]

abbrev pub has_id : String → Request → Bool
has_id id r = r.id == id

-- `update … set … where …`.
abbrev pub set_where : (Request → Request) → (Request → Bool) → Request → Request
set_where set holds r = if holds r then set r else r

abbrev pub update : (Request → Request) → (Request → Bool) → List Request → List Request
update set holds rows = map (set_where set holds) rows

-- `order by created_at … limit 1`, from the first row.
pub oldest_from : Request → List Request → Request
oldest_from best [] = best
oldest_from best (r ∷ rows) =
    let keep = oldest_from best rows in
    let change = oldest_from r rows in if ltb r.created_at best.created_at then change else keep

abbrev pub oldest : List Request → Option Request
oldest [] = none
oldest (r ∷ rows) = some (oldest_from r rows)

-- `where status = 'queued'`, and `for update skip locked`.
abbrev pub is_available : List String → Request → Bool
is_available locked r = is_queued r && not (includes locked r.id)

pub next_queued : List String → List Request → Option Request
next_queued locked rows = oldest (filter (is_available locked) rows)

abbrev pub claim : ℕ → Request → Request
claim now r = record r {
  status = RequestStatus.claimed;
  claimed_at = some now;
  attempts = r.attempts + 1;
}

abbrev pub claimed_request : Request → ClaimedRequest
claimed_request r = record {
  id = r.id;
  app_id = r.app_id;
  organisation_id = r.organisation_id;
  requested_by = r.requested_by;
  depth = r.depth;
  max_run_cost = r.max_run_cost;
  attempts = r.attempts + 1;
}

abbrev pub claim_row : Option Request → List Request → ℕ → List Request × Option ClaimedRequest
claim_row none rows now = (rows, none)
claim_row (some r) rows now = (update (claim now) (has_id r.id) rows, some (claimed_request r))

pub claim_next_request : List Request → List String → ℕ → List Request × Option ClaimedRequest
claim_next_request rows locked now = claim_row (next_queued locked rows) rows now

pub data QueueError : Type 0 where
  not_there : String → String → QueueError

abbrev pub complete : String → ℕ → Request → Request
complete assessment_id now r = record r {
  status = RequestStatus.completed;
  assessment_id = some assessment_id;
  completed_at = some now;
}

-- `rowCount === 0` throws.
pub complete_request :
    List Request → String → String → ℕ → List Request × Result QueueError (Unit {0})
complete_request rows id assessment_id now = (
  update (complete assessment_id now) (has_id id) rows,
  (if any (has_id id) rows then ok tt else err (not_there assessment_id id)),
)

-- What was thrown: whether it is an `UnretryableError`, its `code` where that is a text, its message.
pub record Failure : Type 0 where
  pub is_unretryable : Bool
  pub code : Option String
  pub message : String

abbrev unretryable_classes : List String
unretryable_classes = "22" ∷ "23" ∷ "42" ∷ []

abbrev retryable_code : Option String → Bool
retryable_code none = true
retryable_code (some code) = not (includes unretryable_classes (slice code 0 2))

pub is_retryable_failure : Failure → Bool
is_retryable_failure error = if error.is_unretryable then false else retryable_code error.code

pub data FailOutcome : Type 0 where
  was_requeued has_failed : FailOutcome

-- `rows[0]?.attempts ?? maxAttempts`.
abbrev attempts_or : Option Request → ℕ → ℕ
attempts_or none max_attempts = max_attempts
attempts_or (some r) max_attempts = r.attempts

pub attempts_read : List Request → String → ℕ → ℕ
attempts_read seen id max_attempts = attempts_or (find? (has_id id) seen) max_attempts

pub may_requeue : List Request → String → Bool → ℕ → Bool
may_requeue seen id retryable max_attempts =
    retryable && ltb (attempts_read seen id max_attempts) max_attempts

abbrev pub give_back : Bool → String → ℕ → Request → Request
give_back true message now r = record r {
  status = RequestStatus.queued;
  last_error = some (thrown (slice message 0 2000));
  completed_at = none;
  claimed_at = none;
}
give_back false message now r = record r {
  status = RequestStatus.failed;
  last_error = some (thrown (slice message 0 2000));
  completed_at = some now;
}

-- `seen` is the table at the `select`, `rows` the one at the `update`.
pub fail_request :
    List Request → List Request → String → String → Bool → ℕ → ℕ → List Request × FailOutcome
fail_request seen rows id message retryable max_attempts now =
    let requeue = may_requeue seen id retryable max_attempts in
    (
      update (give_back requeue message now) (has_id id) rows,
      (if requeue then was_requeued else has_failed),
    )

abbrev pub run_timeout_minutes : ℕ
run_timeout_minutes = 60

abbrev pub reclaim_after_minutes : ℕ
reclaim_after_minutes = 90

abbrev pub minute : ℕ
minute = 60000

-- `claimed_at < now() - make_interval(mins => …)`, which no null passes.
abbrev pub older : Option ℕ → ℕ → ℕ → Bool
older none minutes now = false
older (some at) minutes now = ltb (at + minutes * minute) now

abbrev pub is_stale : ℕ → ℕ → Request → Bool
is_stale minutes now r = is_claimed r && older r.claimed_at minutes now

abbrev pub requeue_stale : ℕ → Request → Request
requeue_stale minutes r = record r {
  status = RequestStatus.queued;
  claimed_at = none;
  last_error = some (requeued_after minutes);
}

abbrev pub abandon : ℕ → Request → Request
abandon now r = record r {
  status = RequestStatus.failed;
  completed_at = some now;
  last_error = some no_attempts_left;
}

abbrev pub stale_with_attempts : ℕ → ℕ → ℕ → Request → Bool
stale_with_attempts max_attempts minutes now r =
    is_stale minutes now r && ltb r.attempts max_attempts

abbrev pub stale_without_attempts : ℕ → ℕ → ℕ → Request → Bool
stale_without_attempts max_attempts minutes now r =
    is_stale minutes now r && leb max_attempts r.attempts

pub record ReclaimResult : Type 0 where
  pub requeued : ℕ
  pub abandoned : ℕ

-- The second statement sees the rows that the first has left.
pub reclaim_stale_requests : List Request → ℕ → ℕ → ℕ → List Request × ReclaimResult
reclaim_stale_requests rows max_attempts minutes now =
    let after =
      update (requeue_stale minutes) (stale_with_attempts max_attempts minutes now) rows in
    (
      update (abandon now) (stale_without_attempts max_attempts minutes now) after,
      record {
        requeued = length (filter (stale_with_attempts max_attempts minutes now) rows);
        abandoned = length (filter (stale_without_attempts max_attempts minutes now) after);
      },
    )
