-- ===== src/Worker/Queue/Reclaim.antt =====
-- The sweep over the claims whose worker is gone (`reclaimStaleRequests` of
-- apps/worker/src/queue.ts), and the time that it leaves to a worker that is not.
use vibefy.Prelude.{
  ℕ, ◌+◌, ◌*◌, ◌≤◌, String, Bool, true, false, ◌&&◌, Option, some, List, [], ◌∷◌, Memᴰ, ltb,
  le→ltb-false, le→leb, ltb-false, filter, length, mem_map→, ◌==◌, text_eq, eq_sound, ◌≡◌, ◌≢◌,
  refl, sym, ap, ◌∙◌, inl, inr, Bool-cases, Option-cases, arith,
}
use vibefy.Worker.Queue.{
  Request, is_claimed, set_where, update, next_queued, claim_next_request, reclaim_stale_requests,
  reclaim_after_minutes, run_timeout_minutes, minute, older, is_stale, stale_with_attempts,
  stale_without_attempts, requeue_stale, abandon,
}
use vibefy.Worker.Queue.Rows.{
  max_attempts, Operation, submitted, claims, completes, fails, reclaims, apply, HasUniqueIds, run,
  effect, claimed_by, claim_count, effect-mem, apply-HasUniqueIds, run,
}
use vibefy.Worker.Queue.Attempts.{chosen_is_row, differ_sym}

-- What the other workers and the sweep do until a time: nobody else completes or fails the request.
abbrev pub LeavesAlone : String → ℕ → Operation → Type 0
LeavesAlone id until (submitted _) = Unit
LeavesAlone id until (claims _ _) = Unit
LeavesAlone id until (completes x _ _) = x ≢ id
LeavesAlone id until (fails x _ _ _) = x ≢ id
LeavesAlone id until (reclaims now) = now ≤ until

abbrev pub AllLeaveAlone : String → ℕ → List Operation → Type 0
AllLeaveAlone id until [] = Unit
AllLeaveAlone id until (o ∷ os) = LeavesAlone id until o × AllLeaveAlone id until os

set_where-kept :
    (set : Request → Request) (holds : Request → Bool) (r : Request)
    → holds r ≡ false
    → set_where set holds r ≡ r
set_where-kept set holds r h = rw h refl

set_where-set :
    (set : Request → Request) (holds : Request → Bool) (r : Request)
    → holds r ≡ true
    → set_where set holds r ≡ set r
set_where-set set holds r h = rw h refl

-- A claim that the sweep's time does not reach.
claimed_later :
    (minutes now : ℕ) {at : ℕ} (r : Request)
    → r.claimed_at ≡ some at
    → ltb (at + minutes * minute) now ≡ false
    → is_stale minutes now r ≡ false
claimed_later minutes now {at} r e late = neither (is_claimed r) (young r.claimed_at e)
  where
    young : (o : Option ℕ) → o ≡ some at → older o minutes now ≡ false
    young o q = rw q late

    neither : (a : Bool) {b : Bool} → b ≡ false → (a && b) ≡ false
    neither a h = ground arith

module _ (rows : List Request) (r : Request) (unique : HasUniqueIds rows) (m : Memᴰ r rows) where
  claimed_is_kept :
      {at : ℕ}
      → is_claimed r ≡ true
      → r.claimed_at ≡ some at
      → (o : Operation) → LeavesAlone r.id (at + reclaim_after_minutes * minute) o
      → (claimed_by r.id o rows ≡ 0) × (effect o rows r ≡ r)
  unfolding claim_next_request
  claimed_is_kept c e (submitted x) alone = (refl, refl)
  claimed_is_kept c e (claims locked now) alone = elim (Option-cases (next_queued locked rows)) [
    | inl q ↦ rw q (refl, refl)
    | inr (x, q) ↦ elim (Bool-cases (x.id == r.id)) [
      | inl same ↦ let (_, queued) = chosen_is_row rows r unique m locked x q same in ground arith
      | inr other ↦ rw (q, other, differ_sym x.id r.id other) (refl, refl)
    ]
  ]
  claimed_is_kept c e (completes id a now) alone = elim (Bool-cases (r.id == id)) [
    | inl same ↦ elim (alone (sym (eq_sound r.id id same))) [ ]
    | inr other ↦ rw other (refl, refl)
  ]
  claimed_is_kept c e (fails id error seen now) alone = elim (Bool-cases (r.id == id)) [
    | inl same ↦ elim (alone (sym (eq_sound r.id id same))) [ ]
    | inr other ↦ rw other (refl, refl)
  ]
  claimed_is_kept {at} c e (reclaims now) alone =
      let fresh = claimed_later reclaim_after_minutes now r e (le→ltb-false _ _ alone) in
      (
        refl,
        ap (set_where (abandon now) (stale_without_attempts max_attempts reclaim_after_minutes now))
              (set_where-kept (requeue_stale reclaim_after_minutes)
                (stale_with_attempts max_attempts reclaim_after_minutes now) r (rw fresh refl))
            ∙ set_where-kept (abandon now)
                (stale_without_attempts max_attempts reclaim_after_minutes now) r (rw fresh refl),
      )

-- In a table with unique ids, a request that a worker holds is given to nobody else and stays as it
-- is through every sequence of operations in which nobody completes or fails it, and in which no
-- sweep comes later than the time that a worker waits for its run, and thirty minutes more, after
-- the claim.
pub live_claim_is_exclusive :
    (os : List Operation) (rows : List Request) (r : Request) {at : ℕ}
    → HasUniqueIds rows
    → Memᴰ r rows
    → is_claimed r ≡ true
    → r.claimed_at ≡ some at
    → AllLeaveAlone r.id (at + (run_timeout_minutes + 30) * minute) os
    → (claim_count r.id os rows ≡ 0) × Memᴰ r (run os rows)
live_claim_is_exclusive [] rows r unique m c e alone = (refl, m)
live_claim_is_exclusive (o ∷ os) rows r unique m c e (here, later) =
    let (nobody, kept) = claimed_is_kept rows r unique m c e o here in
    let (rest, there) =
      live_claim_is_exclusive os (apply o rows) r (apply-HasUniqueIds o rows unique)
        (rw (← kept) (effect-mem o rows m)) c e later in
    (omega (arith, nobody, rest), there)

module _ (most minutes now : ℕ) where
  abbrev left : Request → Bool
  left r = stale_with_attempts most minutes now r

  abbrev spent : Request → Bool
  spent r = stale_without_attempts most minutes now r

  abbrev after : List Request → List Request
  after rows = update (requeue_stale minutes) left rows

  row_recovered :
      (r : Request)
      → is_stale minutes now
          (set_where (abandon now) spent (set_where (requeue_stale minutes) left r))
        ≡ false
  row_recovered r = elim (Bool-cases (is_stale minutes now r)) [
    | inr fresh ↦ rw (fresh, fresh) fresh
    | inl stale ↦ elim (Bool-cases (ltb r.attempts most)) [
      | inl again ↦ rw (stale, again) refl
      | inr over ↦
          let first : set_where (requeue_stale minutes) left r ≡ r =
            set_where-kept (requeue_stale minutes) left r (rw (stale, over) refl) in
          let second : set_where (abandon now) spent r ≡ abandon now r =
            set_where-set (abandon now) spent r
              (rw (stale, le→leb _ _ (ltb-false _ _ over)) refl) in
          ap (λ (x : Request). is_stale minutes now (set_where (abandon now) spent x)) first
          ∙ ap (is_stale minutes now) second
    ]
  ]

  each_counted :
      (rows : List Request)
      → length (filter left rows) + length (filter spent (after rows))
        ≡ length (filter (is_stale minutes now) rows)
  each_counted [] = omega arith
  each_counted (r ∷ rows) = elim (Bool-cases (is_stale minutes now r)) [
    | inr fresh ↦ rw (fresh, fresh) (each_counted rows)
    | inl stale ↦ elim (Bool-cases (ltb r.attempts most)) [
      | inl again ↦ rw (stale, again) (omega (arith, each_counted rows))
      | inr over ↦
          rw (stale, over, stale, le→leb _ _ (ltb-false _ _ over))
            (omega (arith, each_counted rows))
    ]
  ]

-- After the sweep no request is held by a claim older than the sweep's time, and what it reports, the
-- requeued and the abandoned together, is the number of those that were.
reclaim_leaves_none_stale :
    (rows : List Request) (most minutes now : ℕ)
    → ((x : Request)
        → Memᴰ x (reclaim_stale_requests rows most minutes now).0
        → is_stale minutes now x ≡ false)
      × ((reclaim_stale_requests rows most minutes now).1.requeued
            + (reclaim_stale_requests rows most minutes now).1.abandoned
          ≡ length (filter (is_stale minutes now) rows))
unfolding reclaim_stale_requests
reclaim_leaves_none_stale rows most minutes now = (
  λ x m.
      let (y, n, e) =
        mem_map→ (set_where (abandon now) (spent most minutes now)) (after most minutes now rows)
          m in
      let (r, _, e') =
        mem_map→ (set_where (requeue_stale minutes) (left most minutes now)) rows n in
      rw (e, e') (row_recovered most minutes now r),
  each_counted most minutes now rows,
)
