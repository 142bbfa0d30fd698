-- ===== src/Worker/Queue/Rows.antt =====
-- The steps of the queue (apps/worker/src/queue.ts and the callers in main.ts), and what each of them
-- does to one row.
use vibefy.Prelude.{
  ℕ, ◌+◌, String, Bool, true, false, Option, none, some, List, [], ◌∷◌, map, Memᴰ, any, mem_map←,
  mem_map→, any_complete, if◌then◌else◌, ◌==◌, text_eq, eq_refl, ◌≡◌, refl, sym, ap, ◌∙◌, inl, inr,
  Bool-cases, ltb, ◌&&◌, arith,
}
use vibefy.Worker.Queue.{
  Request, ClaimedRequest, has_id, set_where, update, claim, claim_row, complete, give_back,
  attempts_read, may_requeue, next_queued, claim_next_request, complete_request, Failure,
  is_retryable_failure, fail_request, reclaim_stale_requests, reclaim_after_minutes, requeue_stale,
  abandon, stale_with_attempts, stale_without_attempts,
}

-- `maxAttempts ?? 3`.
abbrev pub max_attempts : ℕ
max_attempts = 3

-- What the workers and the customers do to the table: a request is put in it, a worker claims the
-- next one, marks one as completed, or as failed by the table that it read before, or the sweep
-- reclaims.
pub data Operation : Type 0 where
  submitted : Request → Operation
  claims : List String → ℕ → Operation
  completes : String → String → ℕ → Operation
  fails : String → Failure → List Request → ℕ → Operation
  reclaims : ℕ → Operation

-- The id is the primary key of the table.
abbrev submit : Request → List Request → List Request
submit r rows = if any (has_id r.id) rows then rows else r ∷ rows

unfoldable pub apply : Operation → List Request → List Request
apply (submitted r) rows = submit r rows
apply (claims locked now) rows = (claim_next_request rows locked now).0
apply (completes id assessment_id now) rows = (complete_request rows id assessment_id now).0
apply (fails id error seen now) rows =
    (fail_request seen rows id error.message (is_retryable_failure error) max_attempts now).0
apply (reclaims now) rows = (reclaim_stale_requests rows max_attempts reclaim_after_minutes now).0

-- No two rows with one id.
abbrev pub HasUniqueIds : List Request → Type 0
HasUniqueIds rows = (a b : Request) → Memᴰ a rows → Memᴰ b rows → a.id ≡ b.id → a ≡ b

-- What an operation does to a row of the table.
abbrev claim_effect : Option Request → ℕ → Request → Request
claim_effect none now r = r
claim_effect (some c) now r = set_where (claim now) (has_id c.id) r

abbrev pub reclaim_effect : ℕ → ℕ → ℕ → Request → Request
reclaim_effect most minutes now r =
    set_where (abandon now) (stale_without_attempts most minutes now)
      (set_where (requeue_stale minutes) (stale_with_attempts most minutes now) r)

abbrev pub effect : Operation → List Request → Request → Request
effect (submitted _) rows r = r
effect (claims locked now) rows r = claim_effect (next_queued locked rows) now r
effect (completes id assessment_id now) rows r =
    set_where (complete assessment_id now) (has_id id) r
effect (fails id error seen now) rows r =
    set_where
      (give_back (may_requeue seen id (is_retryable_failure error) max_attempts) error.message now)
      (has_id id) r
effect (reclaims now) rows r = reclaim_effect max_attempts reclaim_after_minutes now r

claim_effect-id : (c : Option Request) (now : ℕ) (r : Request) → (claim_effect c now r).id ≡ r.id
claim_effect-id c now r = ground arith

give_back-id : (b : Bool) (m : String) (now : ℕ) (r : Request) → (give_back b m now r).id ≡ r.id
give_back-id true m now r = refl
give_back-id false m now r = refl

set_where-id :
    (set : Request → Request) (holds : Request → Bool) (r : Request)
    → ((x : Request) → (set x).id ≡ x.id)
    → (set_where set holds r).id ≡ r.id
set_where-id set holds r h = elim (Bool-cases (holds r)) [
  | inl holding ↦ rw holding (h r)
  | inr passed ↦ rw passed refl
]

-- No operation changes an id.
pub effect-id : (o : Operation) (rows : List Request) (r : Request) → (effect o rows r).id ≡ r.id
effect-id (submitted _) rows r = refl
effect-id (claims locked now) rows r = claim_effect-id (next_queued locked rows) now r
effect-id (completes id a now) rows r = set_where-id (complete a now) (has_id id) r (λ x. refl)
effect-id (fails id e seen now) rows r =
    let requeue = may_requeue seen id (is_retryable_failure e) max_attempts in
    set_where-id (give_back requeue e.message now) (has_id id) r
      (give_back-id requeue e.message now)
effect-id (reclaims now) rows r =
    let requeued =
      set_where (requeue_stale reclaim_after_minutes)
        (stale_with_attempts max_attempts reclaim_after_minutes now) r in
    set_where-id (abandon now) (stale_without_attempts max_attempts reclaim_after_minutes now)
      requeued (λ x. refl)
    ∙ set_where-id (requeue_stale reclaim_after_minutes)
        (stale_with_attempts max_attempts reclaim_after_minutes now) r (λ x. refl)

claim_effect-mem :
    (c : Option Request) (rows : List Request) (now : ℕ) {r : Request}
    → Memᴰ r rows
    → Memᴰ (claim_effect c now r) (claim_row c rows now).0
claim_effect-mem none rows now m = m
claim_effect-mem (some c) rows now m = mem_map← (set_where (claim now) (has_id c.id)) m

-- After an operation the table holds what the operation makes of each of its rows.
pub effect-mem :
    (o : Operation) (rows : List Request) {r : Request}
    → Memᴰ r rows
    → Memᴰ (effect o rows r) (apply o rows)
unfolding apply claim_next_request complete_request fail_request reclaim_stale_requests
effect-mem (submitted x) rows m = elim (Bool-cases (any (has_id x.id) rows)) [
  | inl there ↦ rw there m
  | inr absent ↦ rw absent (Memᴰ.tail m)
]
effect-mem (claims locked now) rows m = claim_effect-mem (next_queued locked rows) rows now m
effect-mem (completes id a now) rows m = mem_map← (set_where (complete a now) (has_id id)) m
effect-mem (fails id e seen now) rows m =
    mem_map←
      (set_where
        (give_back (may_requeue seen id (is_retryable_failure e) max_attempts) e.message now)
        (has_id id))
      m
effect-mem (reclaims now) rows m =
    mem_map←
      (set_where (abandon now) (stale_without_attempts max_attempts reclaim_after_minutes now))
      (mem_map←
        (set_where (requeue_stale reclaim_after_minutes)
          (stale_with_attempts max_attempts reclaim_after_minutes now))
        m)

map-HasUniqueIds :
    (f : Request → Request) (rows : List Request)
    → ((r : Request) → (f r).id ≡ r.id)
    → HasUniqueIds rows
    → HasUniqueIds (map f rows)
map-HasUniqueIds f rows same h a b ma mb e =
    let (x, mx, ex) = mem_map→ f rows ma in
    let (y, my, ey) = mem_map→ f rows mb in
    let ids : x.id ≡ y.id =
      sym (same x)
      ∙ sym (ap (λ (r : Request). r.id) ex)
      ∙ e
      ∙ ap (λ (r : Request). r.id) ey
      ∙ same y in
    ex ∙ ap f (h x y mx my ids) ∙ sym ey

update-HasUniqueIds :
    (set : Request → Request) (holds : Request → Bool) (rows : List Request)
    → ((r : Request) → (set r).id ≡ r.id)
    → HasUniqueIds rows
    → HasUniqueIds (update set holds rows)
update-HasUniqueIds set holds rows same h =
    map-HasUniqueIds (set_where set holds) rows (λ r. set_where-id set holds r same) h

claim_row-HasUniqueIds :
    (c : Option Request) (rows : List Request) (now : ℕ)
    → HasUniqueIds rows
    → HasUniqueIds (claim_row c rows now).0
claim_row-HasUniqueIds none rows now h = h
claim_row-HasUniqueIds (some c) rows now h =
    update-HasUniqueIds (claim now) (has_id c.id) rows (λ x. refl) h

-- A row beside others of which none has its id.
pub cons-HasUniqueIds :
    (x : Request) (rows : List Request)
    → any (has_id x.id) rows ≡ false
    → HasUniqueIds rows
    → HasUniqueIds (x ∷ rows)
cons-HasUniqueIds x rows fresh h a b ma mb e = meet ma mb
  where
    other : (r : Request) → Memᴰ r rows → r.id ≡ x.id → x ≡ r
    other r m q = cc (any_complete (has_id x.id) m (rw q (eq_refl x.id)), fresh)

    meet : Memᴰ a (x ∷ rows) → Memᴰ b (x ∷ rows) → a ≡ b
    meet (Memᴰ.head p) (Memᴰ.head q) = p ∙ sym q
    meet (Memᴰ.head p) (Memᴰ.tail m) = p ∙ other b m (sym e ∙ ap (λ (r : Request). r.id) p)
    meet (Memᴰ.tail m) (Memᴰ.head q) = sym (q ∙ other a m (e ∙ ap (λ (r : Request). r.id) q))
    meet (Memᴰ.tail m) (Memᴰ.tail n) = h a b m n e

-- Ids stay unique.
pub apply-HasUniqueIds :
    (o : Operation) (rows : List Request) → HasUniqueIds rows → HasUniqueIds (apply o rows)
unfolding apply claim_next_request complete_request fail_request reclaim_stale_requests
apply-HasUniqueIds (submitted x) rows h = elim (Bool-cases (any (has_id x.id) rows)) [
  | inl there ↦ rw there h
  | inr absent ↦ rw absent (cons-HasUniqueIds x rows absent h)
]
apply-HasUniqueIds (claims locked now) rows h =
    claim_row-HasUniqueIds (next_queued locked rows) rows now h
apply-HasUniqueIds (completes id a now) rows h =
    update-HasUniqueIds (complete a now) (has_id id) rows (λ x. refl) h
apply-HasUniqueIds (fails id e seen now) rows h =
    let requeue = may_requeue seen id (is_retryable_failure e) max_attempts in
    update-HasUniqueIds (give_back requeue e.message now) (has_id id) rows
      (give_back-id requeue e.message now) h
apply-HasUniqueIds (reclaims now) rows h =
    update-HasUniqueIds (abandon now)
      (stale_without_attempts max_attempts reclaim_after_minutes now)
      (update (requeue_stale reclaim_after_minutes)
        (stale_with_attempts max_attempts reclaim_after_minutes now) rows)
      (λ x. refl)
      (update-HasUniqueIds (requeue_stale reclaim_after_minutes)
        (stale_with_attempts max_attempts reclaim_after_minutes now) rows (λ x. refl) h)

abbrev pub run : List Operation → List Request → List Request
run [] rows = rows
run (o ∷ os) rows = run os (apply o rows)

abbrev counts : String → Option ClaimedRequest → ℕ
counts id none = 0
counts id (some c) = if c.id == id then 1 else 0

abbrev pub claimed_by : String → Operation → List Request → ℕ
claimed_by id (claims locked now) rows = counts id (claim_next_request rows locked now).1
claimed_by id _ rows = 0

-- How many workers get the request, over a sequence of operations.
abbrev pub claim_count : String → List Operation → List Request → ℕ
claim_count id [] rows = 0
claim_count id (o ∷ os) rows = claimed_by id o rows + claim_count id os (apply o rows)

-- The table that an operation has read is older than a claim of the request that it gives back.
abbrev pub is_overtaken : String → Operation → List Request → Bool
is_overtaken id (fails x error seen now) rows =
    (x == id) && ltb (attempts_read seen id max_attempts) (attempts_read rows id max_attempts)
is_overtaken id _ rows = false

-- How many updates of failures are overtaken, over a sequence of operations.
abbrev pub overtaken_count : String → List Operation → List Request → ℕ
overtaken_count id [] rows = 0
overtaken_count id (o ∷ os) rows =
    (if is_overtaken id o rows then 1 else 0) + overtaken_count id os (apply o rows)
