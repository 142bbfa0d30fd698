-- ===== src/Engine/Cost/Ledger.antt =====
-- What enters the ledger of a run (packages/engine/src/runtime/cost.ts).
use vibefy.Prelude.{
  ◌+◌, ◌≤◌, ◌<◌, List, [], ◌∷◌, ◌++◌, leb, text_eq, Result, ok, err, ◌≡◌, refl, sym, ap, ◌⊎◌, inl,
  inr, Bool-cases, arith,
}
use vibefy.Engine.Cost.{
  counted, TokenUsage, MeterError, or_none, Counted, CostRecord, CostMeter, cost_of, total_of,
  total, assert_headroom, push, push_result,
}

pub total_of-append : (xs ys : List CostRecord) → total_of (xs ++ ys) ≡ total_of xs + total_of ys
unfolding total_of
total_of-append [] ys = omega arith
total_of-append (x ∷ xs) ys = omega (arith, total_of-append xs ys)

-- The total after a record is pushed.
pub total-push :
    (meter : CostMeter) (r : CostRecord) → total (push meter r).0 ≡ total meter + cost_of r
unfolding push total_of
total-push meter r = omega (arith, total_of-append meter.records (r ∷ []))

-- A push succeeds exactly within the ceiling.
pub push-eq-ok :
    (meter : CostMeter) (r s : CostRecord)
    → (push meter r).1 ≡ ok s
    → (s ≡ r) × (total (push meter r).0 ≤ meter.max_run_cost)
unfolding push assert_headroom
push-eq-ok meter r s h =
    elim (Bool-cases (leb (total_of (meter.records ++ r ∷ []) + 0) meter.max_run_cost)) [
      | inl within ↦ let e : r ≡ s = cc (rw within at h) in (sym e, ground arith)
      | inr over ↦ cc (rw over at h)
    ]

pub push-eq-err :
    (meter : CostMeter) (r : CostRecord) (e : MeterError)
    → (push meter r).1 ≡ err e
    → meter.max_run_cost < total (push meter r).0
unfolding push assert_headroom
push-eq-err meter r e h =
    elim (Bool-cases (leb (total_of (meter.records ++ r ∷ []) + 0) meter.max_run_cost)) [
      | inl within ↦ cc (rw within at h)
      | inr over ↦ ground arith
    ]

-- The counts that a call was billed for are the counts that it reported.
abbrev pub Reported : TokenUsage → Counted → Type 0
Reported usage c =
    (usage.input_tokens ≡ counted c.input_tokens)
    × (usage.output_tokens ≡ counted c.output_tokens)
    × (or_none usage.cache_creation_input_tokens ≡ counted c.cache_creation_input_tokens)
    × (or_none usage.cache_read_input_tokens ≡ counted c.cache_read_input_tokens)

-- What a call that is accepted leaves.
pub push_result-eq-ok :
    (meter : CostMeter) (m : Result MeterError CostRecord) (r : CostRecord)
    → (push_result meter m).1 ≡ ok r
    → (m ≡ ok r)
      × ((push_result meter m).0.records ≡ meter.records ++ r ∷ [])
      × (total (push_result meter m).0 ≤ meter.max_run_cost)
push_result-eq-ok meter (err e) r h = cc h
push_result-eq-ok meter (ok s) r h =
    let (e, within) = push-eq-ok meter s r h in
    (ap ok (sym e), unfold push in ap (λ x. meter.records ++ x ∷ []) (sym e), within)

-- A call whose counts or whose model cannot be billed is refused with the ledger as it was; one that
-- takes the total past the ceiling is refused and stays in the ledger.
pub refused_call :
    (meter : CostMeter) (m : Result MeterError CostRecord) (e : MeterError)
    → (push_result meter m).1 ≡ err e
    → ((m ≡ err e) × ((push_result meter m).0 ≡ meter))
      ⊎ ((r : CostRecord) × (m ≡ ok r)
          × ((push_result meter m).0.records ≡ meter.records ++ r ∷ [])
          × (meter.max_run_cost < total (push_result meter m).0))
refused_call meter (err x) e h = let q : x ≡ e = cc h in inl (ap err q, refl)
refused_call meter (ok r) e h = inr (r, refl, unfold push in refl, push-eq-err meter r e h)
