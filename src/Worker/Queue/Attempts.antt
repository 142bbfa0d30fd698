-- ===== src/Worker/Queue/Attempts.antt =====
-- How often a request is claimed, over everything that workers do to the table
-- (apps/worker/src/queue.ts).
use vibefy.Prelude.{
  ℕ, ◌+◌, ◌≤◌, ◌<◌, String, true, false, some, List, [], ◌∷◌, Memᴰ, find?, find?_sound, find?-none,
  sym, if◌then◌else◌, ltb, ◌==◌, text_eq, eq_refl, eq_sound, and_true, ◌≡◌, refl, ap, ◌∙◌, inl, inr,
  Bool-cases, Option-cases, arith,
}
use vibefy.Worker.Queue.{
  Request, is_queued, has_id, attempts_read, may_requeue, next_queued, claim_next_request, Failure,
  is_retryable_failure, reclaim_after_minutes, stale_with_attempts, stale_without_attempts,
}
use vibefy.Worker.Queue.Rows.{
  max_attempts, Operation, submitted, claims, completes, fails, reclaims, apply, HasUniqueIds,
  effect, claimed_by, claim_count, is_overtaken, overtaken_count, effect-id, effect-mem,
  apply-HasUniqueIds,
}
use vibefy.Worker.Queue.Claim.{next_queued_lem}

pub differ_sym : (a b : String) → (a == b) ≡ false → (b == a) ≡ false
differ_sym a b h = elim (Bool-cases (b == a)) [
  | inl same ↦ cc (eq_sound b a same, eq_refl a, h)
  | inr other ↦ other
]

-- What the table promises of a row, where so many failures were overtaken: no more attempts than are
-- allowed and those, and one left where it is queued.
abbrev pub IsWithin : ℕ → Request → Type 0
IsWithin more r =
    (r.attempts ≤ max_attempts + more) × (is_queued r ≡ true → r.attempts < max_attempts + more)

as_before : (r : Request) (more : ℕ) → IsWithin more r → IsWithin (more + 0) r
as_before r more h = (omega (arith, h.0), λ b. omega (arith, h.1 b))

module _ (rows : List Request) (r : Request) (unique : HasUniqueIds rows) (m : Memᴰ r rows) where
  pub chosen_is_row :
      (locked : List String) (c : Request)
      → next_queued locked rows ≡ some c
      → (c.id == r.id) ≡ true
      → (c ≡ r) × (is_queued r ≡ true)
  chosen_is_row locked c e same =
      let (there, (available, _)) = next_queued_lem locked rows e in
      let q = unique c r there m (eq_sound c.id r.id same) in
      (q, rw (← q) (and_true (is_queued c) _ available).0)

  found_is_row : find? (has_id r.id) rows ≡ some r
  found_is_row = elim (Option-cases (find? (has_id r.id) rows)) [
    | inl e ↦ cc (find?-none (has_id r.id) e m, eq_refl r.id)
    | inr (x, e) ↦
        let (there, same) = find?_sound (has_id r.id) rows e in
        e ∙ ap some (unique x r there m (eq_sound x.id r.id same))
  ]

  claim_step :
      (locked : List String) (now more : ℕ)
      → IsWithin more r
      → (claimed_by r.id (claims locked now) rows + r.attempts
          ≡ (effect (claims locked now) rows r).attempts)
        × IsWithin more (effect (claims locked now) rows r)
  unfolding claim_next_request
  claim_step locked now more h = elim (Option-cases (next_queued locked rows)) [
    | inl e ↦ rw e (omega arith, h)
    | inr (c, e) ↦ elim (Bool-cases (c.id == r.id)) [
      | inl same ↦
          let (q, queued) = chosen_is_row locked c e same in
          rw (e, q, eq_refl r.id) (omega arith, (omega (arith, h.1 queued), λ b. cc b))
      | inr other ↦ rw (e, other, differ_sym c.id r.id other) (omega arith, h)
    ]
  ]

  -- The attempts that a `select` of now reads are those of the row.
  read_is_row : attempts_read rows r.id max_attempts ≡ r.attempts
  unfolding attempts_read
  read_is_row = rw found_is_row refl

  abbrev overtaken : Operation → ℕ
  overtaken o = if is_overtaken r.id o rows then 1 else 0

  -- A failure gives the request back by the attempts that it has read.
  given_back :
      (seen : List Request) (more : ℕ)
      → r.attempts ≤ max_attempts + more
      → ltb (attempts_read seen r.id max_attempts) max_attempts ≡ true
      → r.attempts
        < max_attempts
          + (more + (if ltb (attempts_read seen r.id max_attempts) r.attempts then 1 else 0))
  given_back seen more h below = ground (arith, h, below)

  fail_step :
      (id : String) (error : Failure) (seen : List Request) (now more : ℕ)
      → IsWithin more r
      → (r.attempts ≡ (effect (fails id error seen now) rows r).attempts)
        × IsWithin
            (more + overtaken (fails id error seen now))
            (effect (fails id error seen now) rows r)
  unfolding may_requeue
  fail_step id error seen now more h = elim (Bool-cases (r.id == id)) [
    | inr other ↦
        rw (other, differ_sym r.id id other) (refl, (omega (arith, h.0), λ b. omega (arith, h.1 b)))
    | inl same ↦
        let q : id ≡ r.id = sym (eq_sound r.id id same) in
        rw (q, eq_refl r.id, read_is_row)
          (elim (Bool-cases (may_requeue seen r.id (is_retryable_failure error) max_attempts)) [
            | inr failing ↦ rw failing (refl, (omega (arith, h.0), λ b. cc b))
            | inl requeue ↦
                let below = (and_true (is_retryable_failure error) _ requeue).1 in
                rw requeue (refl, (omega (arith, h.0), λ b. given_back seen more h.0 below))
          ])
  ]

  complete_step :
      (id a : String) (now more : ℕ)
      → IsWithin more r
      → (r.attempts ≡ (effect (completes id a now) rows r).attempts)
        × IsWithin more (effect (completes id a now) rows r)
  complete_step id a now more h = elim (Bool-cases (r.id == id)) [
    | inr other ↦ rw other (refl, h)
    | inl same ↦ rw same (refl, (h.0, λ b. cc b))
  ]

  reclaim_step :
      (now more : ℕ)
      → IsWithin more r
      → (r.attempts ≡ (effect (reclaims now) rows r).attempts)
        × IsWithin more (effect (reclaims now) rows r)
  reclaim_step now more h =
      elim (Bool-cases (stale_with_attempts max_attempts reclaim_after_minutes now r)) [
        | inl again ↦
            let below = (and_true _ (ltb r.attempts max_attempts) again).1 in
            rw again (refl, (h.0, λ b. ground (arith, below)))
        | inr spent ↦
            elim (Bool-cases (stale_without_attempts max_attempts reclaim_after_minutes now r)) [
              | inl over ↦ rw (spent, over) (refl, (h.0, λ b. cc b))
              | inr young ↦ rw (spent, young) (refl, h)
            ]
      ]

  -- An operation adds to the attempts what it claims, and keeps to the promise.
  step :
      (o : Operation) (more : ℕ)
      → IsWithin more r
      → (claimed_by r.id o rows + r.attempts ≡ (effect o rows r).attempts)
        × IsWithin (more + overtaken o) (effect o rows r)
  step (submitted x) more h = (omega arith, as_before r more h)
  step (claims locked now) more h =
      let (e, k) = claim_step locked now more h in
      (e, as_before (effect (claims locked now) rows r) more k)
  step (completes id a now) more h =
      let (e, k) = complete_step id a now more h in
      (omega (arith, e), as_before (effect (completes id a now) rows r) more k)
  step (fails id error seen now) more h =
      let (e, k) = fail_step id error seen now more h in (omega (arith, e), k)
  step (reclaims now) more h =
      let (e, k) = reclaim_step now more h in
      (omega (arith, e), as_before (effect (reclaims now) rows r) more k)

at_most :
    (os : List Operation) (rows : List Request) (r : Request) (more : ℕ)
    → HasUniqueIds rows
    → Memᴰ r rows
    → IsWithin more r
    → claim_count r.id os rows + r.attempts ≤ 3 + more + overtaken_count r.id os rows
at_most [] rows r more unique m h = omega (arith, h.0)
at_most (o ∷ os) rows r more unique m h =
    let (counted, h') = step rows r unique m o more h in
    let rest =
      at_most os (apply o rows) (effect o rows r) (more + overtaken rows r unique m o)
        (apply-HasUniqueIds o rows unique) (effect-mem o rows m) h' in
    let same = effect-id o rows r in
    let claimed : claim_count (effect o rows r).id os (apply o rows)
        ≡ claim_count r.id os (apply o rows) =
      ap (λ (id : String). claim_count id os (apply o rows)) same in
    let late : overtaken_count (effect o rows r).id os (apply o rows)
        ≡ overtaken_count r.id os (apply o rows) =
      ap (λ (id : String). overtaken_count id os (apply o rows)) same in
    omega (arith, rest, claimed, late, counted)

-- What the table promises of a row: no more attempts than are allowed, and one left where it is queued.
abbrev pub IsWithinAttempts : Request → Type 0
IsWithinAttempts r = (r.attempts ≤ max_attempts) × (is_queued r ≡ true → r.attempts < max_attempts)

-- Whatever sequence of operations follows, failures of every kind among them, a request of a table
-- with unique ids is given to a worker at most three times, its earlier attempts counted, and once
-- more for each failure whose update finds more attempts in the table than its select has read; if it
-- starts with at most three attempts, and with fewer where it is queued.
pub claimed_at_most_three_times :
    (os : List Operation) (rows : List Request) (r : Request)
    → HasUniqueIds rows
    → Memᴰ r rows
    → IsWithinAttempts r
    → claim_count r.id os rows + r.attempts ≤ 3 + overtaken_count r.id os rows
claimed_at_most_three_times os rows r unique m h =
    let counted = at_most os rows r 0 unique m (omega (arith, h.0), λ b. omega (arith, h.1 b)) in
    omega (arith, counted)
