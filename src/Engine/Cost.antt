-- ===== src/Engine/Cost.antt =====
-- packages/engine/src/runtime/cost.ts: what a run costs, and the ceiling that stops it. Money is in
-- picodollars and compute time in milliseconds, in which every price of the file is a whole number;
-- the sums are exact, where the code adds floating-point numbers.
pub mod Ledger
pub mod Ceiling
pub mod Summary
mod Tests
use vibefy.Prelude.{
  ℕ, ◌+◌, ◌-◌, ◌*◌, String, Bool, true, false, not, ◌&&◌, Option, none, some, List, [], ◌∷◌, ◌++◌,
  leb, ltb, if◌then◌else◌, ◌==◌, text_eq, Result, ok, err, ◌>>=◌,
}
use vibefy.Prelude.Dict.{lookup, insert}

-- Per token.
pub record ModelPricing : Type 0 where
  pub input : ℕ
  pub output : ℕ
  pub cache_write : ℕ
  pub cache_read : ℕ

-- From dollars per million tokens; a cache write costs 1.25 times the input rate, a read a tenth.
abbrev per_million : ℕ → ℕ → ModelPricing
per_million input output = record {
  input = input * 1000000;
  output = output * 1000000;
  cache_write = input * 1250000;
  cache_read = input * 100000;
}

unfoldable pub model_pricing : List (String × ModelPricing)
model_pricing =
    ("claude-opus-5", per_million 5 25)
    ∷ ("claude-sonnet-5", per_million 2 10)
    ∷ ("claude-haiku-4-5", per_million 1 5)
    ∷ []

-- A number as it arrives: missing, NaN or infinite, below zero, or one that can be billed.
pub data Count : Type 0 where
  absent not_finite negative : Count
  counted : ℕ → Count

pub record TokenUsage : Type 0 where
  pub input_tokens : Count
  pub output_tokens : Count
  pub cache_creation_input_tokens : Count
  pub cache_read_input_tokens : Count

pub data MeterError : Type 0 where
  unmetered_call : String → String → MeterError
  no_price : String → MeterError
  ceiling_exceeded : ℕ → ℕ → MeterError

abbrev pub billable : Count → String → String → Result MeterError ℕ
billable (counted n) field stage = ok n
billable _ field stage = err (unmetered_call field stage)

-- `value ?? 0`.
abbrev pub or_none : Count → Count
or_none absent = counted 0
or_none c = c

pub record Counted : Type 0 where
  pub input_tokens : ℕ
  pub output_tokens : ℕ
  pub cache_creation_input_tokens : ℕ
  pub cache_read_input_tokens : ℕ

pub count_usage : String → TokenUsage → Result MeterError Counted
count_usage stage usage = do
  input ← billable usage.input_tokens "input tokens" stage
  output ← billable usage.output_tokens "output tokens" stage
  written ← billable (or_none usage.cache_creation_input_tokens) "cache creation tokens" stage
  read ← billable (or_none usage.cache_read_input_tokens) "cache read tokens" stage
  ok (record {
    input_tokens = input;
    output_tokens = output;
    cache_creation_input_tokens = written;
    cache_read_input_tokens = read;
  })

abbrev priced : String → Option ModelPricing → Result MeterError ModelPricing
priced model none = err (no_price model)
priced model (some pricing) = ok pricing

pub price_for : String → Result MeterError ModelPricing
price_for model = priced model (lookup model model_pricing)

abbrev pub cost_at : ModelPricing → Counted → ℕ
cost_at pricing usage =
    usage.input_tokens * pricing.input
    + usage.output_tokens * pricing.output
    + usage.cache_creation_input_tokens * pricing.cache_write
    + usage.cache_read_input_tokens * pricing.cache_read

pub cost_of_call : String → Counted → Result MeterError ℕ
cost_of_call model usage = do pricing ← price_for model; ok (cost_at pricing usage)

pub record CostRecord : Type 0 where
  pub model : Option String
  pub stage : String
  pub input_tokens : ℕ
  pub output_tokens : ℕ
  pub cache_read_tokens : ℕ
  pub ai_cost : ℕ
  pub compute_ms : ℕ
  pub compute_cost : ℕ
  pub storage_bytes : ℕ
  pub third_party_calls : ℕ
  pub third_party_cost : ℕ

-- `COMPUTE_USD_PER_SECOND`, for a millisecond.
abbrev pub compute_per_ms : ℕ
compute_per_ms = 11700

pub record CostMeter : Type 0 where
  pub max_run_cost : ℕ
  pub records : List CostRecord

abbrev pub cost_of : CostRecord → ℕ
cost_of r = r.ai_cost + r.compute_cost + r.third_party_cost

pub total_of : List CostRecord → ℕ
total_of [] = 0
total_of (r ∷ rs) = cost_of r + total_of rs

abbrev pub total : CostMeter → ℕ
total meter = total_of meter.records

pub remaining : CostMeter → ℕ
remaining meter = meter.max_run_cost - total meter

-- The constructor of the class, which refuses a ceiling of nought.
pub new_meter : ℕ → Option CostMeter
new_meter limit = if ltb 0 limit then some (record { max_run_cost = limit; records = [] }) else none

pub assert_headroom : CostMeter → ℕ → Result MeterError (Unit {0})
assert_headroom meter estimated =
    if leb (total meter + estimated) meter.max_run_cost
    then ok tt
    else err (ceiling_exceeded meter.max_run_cost (total meter + estimated))

-- `this.records.push(record); this.assertHeadroom(); return record;`: the record stays also where
-- the ceiling is then found exceeded.
pub push : CostMeter → CostRecord → CostMeter × Result MeterError CostRecord
push meter r =
    let after = record meter { records = meter.records ++ r ∷ [] } in
    (after, (do _ ← assert_headroom after 0; ok r))

abbrev push_result :
    CostMeter → Result MeterError CostRecord → CostMeter × Result MeterError CostRecord
push_result meter (ok r) = push meter r
push_result meter (err e) = (meter, err e)

pub model_record : String → String → TokenUsage → Result MeterError CostRecord
model_record stage model usage = do
  c ← count_usage stage usage
  cost ← cost_of_call model c
  ok (record {
    model = some model;
    stage = stage;
    input_tokens = c.input_tokens;
    output_tokens = c.output_tokens;
    cache_read_tokens = c.cache_read_input_tokens;
    ai_cost = cost;
    compute_ms = 0;
    compute_cost = 0;
    storage_bytes = 0;
    third_party_calls = 0;
    third_party_cost = 0;
  })

pub record_model_call :
    CostMeter → String → String → TokenUsage → CostMeter × Result MeterError CostRecord
record_model_call meter stage model usage = push_result meter (model_record stage model usage)

pub compute_record : String → Count → Count → Count → Result MeterError CostRecord
compute_record stage milliseconds bytes calls = do
  ms ← billable milliseconds "compute seconds" stage
  stored ← billable bytes "stored bytes" stage
  third_party ← billable calls "third-party calls" stage
  ok (record {
    model = none;
    stage = stage;
    input_tokens = 0;
    output_tokens = 0;
    cache_read_tokens = 0;
    ai_cost = 0;
    compute_ms = ms;
    compute_cost = ms * compute_per_ms;
    storage_bytes = stored;
    third_party_calls = third_party;
    third_party_cost = 0;
  })

pub record_compute :
    CostMeter → String → Count → Count → Count → CostMeter × Result MeterError CostRecord
record_compute meter stage milliseconds bytes calls =
    push_result meter (compute_record stage milliseconds bytes calls)

abbrev model_or : Option String → Option String → Option String
model_or none b = b
model_or (some a) b = some a

pub merge : CostRecord → CostRecord → CostRecord
merge a b = record {
  model = model_or a.model b.model;
  stage = a.stage;
  input_tokens = a.input_tokens + b.input_tokens;
  output_tokens = a.output_tokens + b.output_tokens;
  cache_read_tokens = a.cache_read_tokens + b.cache_read_tokens;
  ai_cost = a.ai_cost + b.ai_cost;
  compute_ms = a.compute_ms + b.compute_ms;
  compute_cost = a.compute_cost + b.compute_cost;
  storage_bytes = a.storage_bytes + b.storage_bytes;
  third_party_calls = a.third_party_calls + b.third_party_calls;
  third_party_cost = a.third_party_cost + b.third_party_cost;
}

abbrev joined : Option CostRecord → CostRecord → CostRecord
joined none r = r
joined (some existing) r = merge existing r

pub summarise_from : List CostRecord → List (String × CostRecord) → List (String × CostRecord)
summarise_from [] by_stage = by_stage
summarise_from (r ∷ rs) by_stage =
    summarise_from rs (insert r.stage (joined (lookup r.stage by_stage) r) by_stage)

pub summarise_by_stage : CostMeter → List (String × CostRecord)
summarise_by_stage meter = summarise_from meter.records []
