-- ===== src/Engine/Cost/Summary.antt =====
-- The rows per stage (`summariseByStage` of packages/engine/src/runtime/cost.ts).
use vibefy.Prelude.{
  ℕ, ◌+◌, String, Option, none, some, List, [], ◌∷◌, filter, ◌==◌, text_eq, eq_sound, ◌≡◌, ap, inl,
  inr, Bool-cases, arith,
}
use vibefy.Prelude.Dict.{lookup, insert, lookup-insert, HasDistinctKeys, insert-HasDistinctKeys}
use vibefy.Engine.Cost.{
  CostRecord, CostMeter, cost_of, total_of, total, merge, joined, summarise_from,
  summarise_by_stage,
}

abbrev pub cost_or : Option CostRecord → ℕ
cost_or none = 0
cost_or (some r) = cost_of r

abbrev pub of_stage : String → List CostRecord → List CostRecord
of_stage stage rs = filter (λ (r : CostRecord). r.stage == stage) rs

cost-joined :
    (o : Option CostRecord) (r : CostRecord) → cost_of (joined o r) ≡ cost_or o + cost_of r
unfolding merge
cost-joined none r = omega arith
cost-joined (some a) r = omega arith

summary_from :
    (stage : String) (rs : List CostRecord) (d : List (String × CostRecord))
    → cost_or (lookup stage (summarise_from rs d))
      ≡ cost_or (lookup stage d) + total_of (of_stage stage rs)
unfolding summarise_from total_of
summary_from stage [] d = omega arith
summary_from stage (r ∷ rs) d =
    let made = joined (lookup r.stage d) r in
    let rest = summary_from stage rs (insert r.stage made d) in
    let found = lookup-insert r.stage stage made d in
    let grown = cost-joined (lookup r.stage d) r in
    elim (Bool-cases (r.stage == stage)) [
      | inl same ↦
          let here : cost_or (lookup stage (insert r.stage made d)) ≡ cost_of made =
            rw (found, same) in
          let old : cost_or (lookup r.stage d) ≡ cost_or (lookup stage d) =
            ap (λ s. cost_or (lookup s d)) (eq_sound r.stage stage same) in
          rw same (omega (arith, rest, here, old, grown))
      | inr other ↦
          let here : cost_or (lookup stage (insert r.stage made d)) ≡ cost_or (lookup stage d) =
            rw (found, other) in
          rw other (omega (arith, rest, here))
    ]

pub total_from : List (String × CostRecord) → ℕ
total_from [] = 0
total_from ((stage, r) ∷ rows) = cost_of r + total_from rows

total_from-insert :
    (k : String) (r : CostRecord) (d : List (String × CostRecord))
    → total_from (insert k r d) + cost_or (lookup k d) ≡ total_from d + cost_of r
unfolding total_from insert lookup
total_from-insert k r [] = omega arith
total_from-insert k r ((j, s) ∷ d) = elim (Bool-cases (j == k)) [
  | inl same ↦ rw (same, insert, lookup) (unfold total_from in omega arith)
  | inr other ↦
      let rest = total_from-insert k r d in
      rw (other, insert, lookup) (unfold total_from in omega (arith, rest))
]

total_summary :
    (rs : List CostRecord) (d : List (String × CostRecord))
    → total_from (summarise_from rs d) ≡ total_from d + total_of rs
unfolding summarise_from total_of
total_summary [] d = omega arith
total_summary (r ∷ rs) d =
    let made = joined (lookup r.stage d) r in
    let rest = total_summary rs (insert r.stage made d) in
    let put = total_from-insert r.stage made d in
    let grown = cost-joined (lookup r.stage d) r in omega (arith, rest, put, grown)

distinct_summary :
    (rs : List CostRecord) (d : List (String × CostRecord))
    → HasDistinctKeys d
    → HasDistinctKeys (summarise_from rs d)
unfolding summarise_from
distinct_summary [] d h = h
distinct_summary (r ∷ rs) d h =
    distinct_summary rs (insert r.stage (joined (lookup r.stage d) r) d)
      (insert-HasDistinctKeys r.stage (joined (lookup r.stage d) r) d h)

-- The summary has one row for a stage, a row costs what the records of its stage cost together, and
-- the rows together cost what the run cost.
pub summary_lem :
    (meter : CostMeter)
    → HasDistinctKeys (summarise_by_stage meter)
      × ((stage : String)
          → cost_or (lookup stage (summarise_by_stage meter))
            ≡ total_of (of_stage stage meter.records))
      × (total_from (summarise_by_stage meter) ≡ total meter)
unfolding summarise_by_stage total_from lookup
summary_lem meter = (
  distinct_summary meter.records [] tt,
  (λ stage. let e = summary_from stage meter.records [] in omega (arith, e)),
  (let e = total_summary meter.records [] in omega (arith, e)),
)
