-- ===== src/Engine/Cost/Ceiling.antt =====
-- The ceiling over a whole run (packages/engine/src/runtime/cost.ts). A run is the calls that it
-- makes of its meter, and the first error ends it.
use vibefy.Prelude.{
  ℕ, ◌≤◌, ◌<◌, String, Option, none, some, List, [], ◌∷◌, ◌++◌, length, ltb, Result, ok, err, ◌≡◌,
  ◌≢◌, refl, sym, ap, inl, inr, Bool-cases, Result-cases, arith,
}
use mathlib.Core.List.{append-nil}
use vibefy.Engine.Cost.{
  Count, TokenUsage, MeterError, CostRecord, CostMeter, total_of, total, new_meter, assert_headroom,
  push, push_result, model_record, record_model_call, compute_record, record_compute,
}
use vibefy.Engine.Cost.Ledger.{total-push, push-eq-ok}

pub data Call : Type 0 where
  model_call : String → String → TokenUsage → Call
  compute_call : String → Count → Count → Count → Call
  headroom : ℕ → Call

abbrev error_of {ℓ} : {A : Type ℓ} → Result MeterError A → Option MeterError
error_of (ok a) = none
error_of (err e) = some e

pub call : CostMeter → Call → CostMeter × Option MeterError
call meter (model_call stage model usage) =
    let (after, result) = record_model_call meter stage model usage in (after, error_of result)
call meter (compute_call stage milliseconds bytes calls) =
    let (after, result) = record_compute meter stage milliseconds bytes calls in
    (after, error_of result)
call meter (headroom estimated) = (meter, error_of (assert_headroom meter estimated))

abbrev go_on :
    CostMeter × Option MeterError
    → (CostMeter → CostMeter × Option MeterError)
    → CostMeter × Option MeterError
go_on (meter, none) rest = rest meter
go_on (meter, some e) rest = (meter, some e)

unfoldable pub run : CostMeter → List Call → CostMeter × Option MeterError
run meter [] = (meter, none)
run meter (c ∷ cs) = go_on (call meter c) (λ after. run after cs)

-- The ledger is within the ceiling but for at most its last record, and entirely if no error came.
abbrev pub Capped : ℕ → CostMeter × Option MeterError → Type 0
Capped limit (meter, outcome) =
    (meter.max_run_cost ≡ limit)
    × ((outcome ≡ none → total meter ≤ limit)
        × ((kept last : List CostRecord) × (meter.records ≡ kept ++ last)
            × (total_of kept ≤ limit)
            × (length last ≤ 1)))

within :
    (meter : CostMeter) (o : Option MeterError)
    → total meter ≤ meter.max_run_cost
    → Capped meter.max_run_cost (meter, o)
within meter o h =
    (refl, ((λ _. h), (meter.records, [], sym (append-nil meter.records), h, omega arith)))

push_result-Capped :
    (meter : CostMeter) (m : Result MeterError CostRecord)
    → total meter ≤ meter.max_run_cost
    → Capped meter.max_run_cost ((push_result meter m).0, error_of (push_result meter m).1)
push_result-Capped meter (err e) h = within meter (some e) h
push_result-Capped meter (ok r) h = elim (Result-cases (push meter r).1) [
  | inl (s, e) ↦
      let (_, fits) = push-eq-ok meter r s e in
      (
        unfold push in refl,
        ((λ _. fits), (meter.records, r ∷ [], unfold push in refl, h, omega arith)),
      )
  | inr (x, e) ↦ (
    unfold push in refl,
    ((λ q. cc (q, ap error_of e)), (meter.records, r ∷ [], unfold push in refl, h, omega arith)),
  )
]

call-Capped :
    (meter : CostMeter) (c : Call)
    → total meter ≤ meter.max_run_cost
    → Capped meter.max_run_cost (call meter c)
unfolding call record_model_call record_compute
call-Capped meter (model_call stage model usage) h =
    push_result-Capped meter (model_record stage model usage) h
call-Capped meter (compute_call stage ms bytes calls) h =
    push_result-Capped meter (compute_record stage ms bytes calls) h
call-Capped meter (headroom estimated) h = within meter _ h

run-Capped :
    (meter : CostMeter) (cs : List Call) (limit : ℕ)
    → meter.max_run_cost ≡ limit
    → total meter ≤ limit
    → Capped limit (run meter cs)
unfolding run
run-Capped meter [] limit e h = rw (← e) (within meter none (omega arith))
run-Capped meter (c ∷ cs) limit e h =
    go (call meter c) (rw (← e) (call-Capped meter c (omega arith)))
      (λ after same fits. run-Capped after cs limit same fits)
  where
    go :
        (x : CostMeter × Option MeterError)
        → Capped limit x
        → ((after : CostMeter)
            → after.max_run_cost ≡ limit
            → total after ≤ limit
            → Capped limit (run after cs))
        → Capped limit (go_on x (λ after. run after cs))
    go (after, none) (same, (fits, _)) rest = rest after same (fits refl)
    go (after, some x) capped rest = capped

-- A meter is made only for a ceiling above nought. Whatever a run then does, its ledger is within the
-- ceiling but for at most the last record, the one at which the run was stopped; a run that was not
-- stopped is within the ceiling.
pub run_is_Capped :
    (limit : ℕ) (meter : CostMeter) (cs : List Call)
    → new_meter limit ≡ some meter
    → (0 < limit) × Capped limit (run meter cs)
unfolding new_meter total_of
run_is_Capped limit meter cs h = elim (Bool-cases (ltb 0 limit)) [
  | inl positive ↦
      let e : record { max_run_cost = limit; records = [] } ≡ meter = cc (rw positive at h) in
      (
        ground arith,
        run-Capped meter cs limit (ap (λ (m : CostMeter). m.max_run_cost) (sym e))
            (let t = ap total e in omega (arith, t)),
      )
  | inr nought ↦ cc (rw nought at h)
]

total-push_result :
    (meter : CostMeter) (m : Result MeterError CostRecord)
    → total meter ≤ total (push_result meter m).0
total-push_result meter (err e) = omega arith
total-push_result meter (ok r) = omega (arith, total-push meter r)

over_fails :
    (meter : CostMeter) (m : Result MeterError CostRecord)
    → meter.max_run_cost < total meter
    → error_of (push_result meter m).1 ≢ none
over_fails meter (err e) h q = cc q
over_fails meter (ok r) h q = elim (Result-cases (push meter r).1) [
  | inl (s, e) ↦
      let (_, fits) = push-eq-ok meter r s e in absurd (omega (arith, total-push meter r))
  | inr (x, e) ↦ cc (q, ap error_of e)
]

-- Once the ledger is past the ceiling it stays so, and every further call of the meter is an error.
ceiling_is_final :
    (meter : CostMeter) (c : Call)
    → meter.max_run_cost < total meter
    → ((call meter c).1 ≢ none) × (total meter ≤ total (call meter c).0)
unfolding call record_model_call record_compute assert_headroom
ceiling_is_final meter (model_call stage model usage) h = (
  over_fails meter (model_record stage model usage) h,
  total-push_result meter (model_record stage model usage),
)
ceiling_is_final meter (compute_call stage ms bytes calls) h = (
  over_fails meter (compute_record stage ms bytes calls) h,
  total-push_result meter (compute_record stage ms bytes calls),
)
ceiling_is_final meter (headroom estimated) h = (λ q. ground arith, omega arith)
