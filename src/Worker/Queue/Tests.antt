-- ===== src/Worker/Queue/Tests.antt =====
-- Runs of apps/worker/src/queue.ts at concrete tables.
use vibefy.Prelude.{
  ℕ, ◌+◌, String, true, false, none, some, List, [], ◌∷◌, Memᴰ, ◌≡◌, refl, arith, ◌≤◌,
}
use vibefy.Billing.Entitlements.{AssessmentDepth}
use vibefy.Worker.Queue.{
  Request, RequestStatus, Failure, oldest_from, next_queued, claim_next_request, fail_request,
  attempts_read, reclaim_stale_requests, may_requeue, is_retryable_failure, was_requeued,
  has_failed,
}
use vibefy.Worker.Queue.Rows.{
  Operation, claims, fails, reclaims, apply, run, claim_count, overtaken_count, HasUniqueIds,
  cons-HasUniqueIds,
}
use vibefy.Worker.Queue.Attempts.{claimed_at_most_three_times}
use vibefy.Worker.Queue.Reclaim.{live_claim_is_exclusive}

abbrev fresh : String → ℕ → Request
fresh id created_at = record {
  id = id;
  app_id = "app";
  organisation_id = "org";
  requested_by = none;
  depth = AssessmentDepth.full;
  max_run_cost = 40000;
  status = RequestStatus.queued;
  attempts = 0;
  created_at = created_at;
  claimed_at = none;
  completed_at = none;
  assessment_id = none;
  last_error = none;
}

abbrev held : Request
held = record (fresh "b" 2) { status = RequestStatus.claimed; attempts = 1; claimed_at = some 0 }

abbrev table : List Request
table = fresh "a" 5 ∷ held ∷ []

abbrev dropped : Failure
dropped = record { is_unretryable = false; code = none; message = "connection terminated" }

abbrev violated : Failure
violated = record { is_unretryable = false; code = some "23503"; message = "foreign key" }

retries_what_may_end_differently : is_retryable_failure dropped ≡ true
unfolding is_retryable_failure
retries_what_may_end_differently = refl

no_retry_of_a_violation : is_retryable_failure violated ≡ false
unfolding is_retryable_failure
no_retry_of_a_violation = refl

requeued_once : (fail_request table table "b" "lost" true 3 7).1 ≡ was_requeued
unfolding fail_request may_requeue attempts_read
requeued_once = refl

failed_at_once : (fail_request table table "b" "lost" false 3 7).1 ≡ has_failed
unfolding fail_request may_requeue attempts_read
failed_at_once = refl

-- The row of a request that was tried so often.
abbrev tried : ℕ → Request
tried n = record (fresh "a" 5) { attempts = n }

abbrev crashes : List Operation
crashes =
    claims [] 10
    ∷ fails "a" dropped (tried 1 ∷ []) 20
    ∷ claims [] 30
    ∷ fails "a" dropped (tried 2 ∷ []) 40
    ∷ claims [] 50
    ∷ fails "a" dropped (tried 3 ∷ []) 60
    ∷ claims [] 70
    ∷ []

three_claims : claim_count "a" crashes table ≡ 3
unfolding apply claim_next_request next_queued oldest_from fail_request may_requeue attempts_read
    is_retryable_failure
three_claims = refl

-- A worker that is reclaimed after its second attempt reads, another claims, the first one's failure is
-- written, and the request is claimed a fourth time.
abbrev late_failure : List Operation
late_failure =
    claims [] 10
    ∷ fails "a" dropped (tried 1 ∷ []) 20
    ∷ claims [] 30
    ∷ reclaims 5500000
    ∷ claims [] 5500001
    ∷ fails "a" dropped (tried 2 ∷ []) 5500002
    ∷ claims [] 5500003
    ∷ []

four_claims : claim_count "a" late_failure (fresh "a" 5 ∷ []) ≡ 4
unfolding apply claim_next_request next_queued oldest_from fail_request may_requeue attempts_read
    is_retryable_failure reclaim_stale_requests
four_claims = refl

table_unique : HasUniqueIds table
table_unique =
    cons-HasUniqueIds (fresh "a" 5) (held ∷ []) refl
      (cons-HasUniqueIds held [] refl (λ a b m. elim m [ ]))

claimed_at_most_three_times_example :
    claim_count "a" crashes table + 0 ≤ 3 + overtaken_count "a" crashes table
claimed_at_most_three_times_example =
    claimed_at_most_three_times crashes table (fresh "a" 5) table_unique (Memᴰ.head refl)
      (omega arith, λ h. omega arith)

live_claim_is_exclusive_example :
    (claim_count "b" (claims [] 10 ∷ reclaims 5400000 ∷ claims [] 5400001 ∷ []) table ≡ 0)
    × Memᴰ held (run (claims [] 10 ∷ reclaims 5400000 ∷ claims [] 5400001 ∷ []) table)
live_claim_is_exclusive_example =
    live_claim_is_exclusive (claims [] 10 ∷ reclaims 5400000 ∷ claims [] 5400001 ∷ []) table held
      table_unique (Memᴰ.tail (Memᴰ.head refl)) refl refl (tt, (omega arith, (tt, tt)))
