-- ===== src/Engine/Cost/Tests.antt =====
-- A short run with its meter (packages/engine/src/runtime/cost.ts).
use vibefy.Prelude.{◌<◌, String, some, List, [], ◌∷◌, err, ◌≡◌, refl, text_eq}
use vibefy.Prelude.Dict.{lookup, HasDistinctKeys}
use vibefy.Engine.Cost.{
  counted, absent, not_finite, TokenUsage, MeterError, unmetered_call, CostRecord, CostMeter,
  total_of, total, new_meter, count_usage, push_result, model_record, summarise_by_stage,
}
use vibefy.Engine.Cost.Ceiling.{
  Call, model_call, compute_call, headroom, Capped, run, run_is_Capped,
}
use vibefy.Engine.Cost.Summary.{cost_or, of_stage, total_from, summary_lem}

-- Half a dollar.
abbrev meter : CostMeter
meter = record { max_run_cost = 500000000000; records = [] }

abbrev usage : TokenUsage
usage = record {
  input_tokens = counted 2000;
  output_tokens = counted 500;
  cache_creation_input_tokens = absent;
  cache_read_input_tokens = counted 1000;
}

abbrev billed : CostRecord
billed = record {
  model = some "claude-opus-5";
  stage = "code_review";
  input_tokens = 2000;
  output_tokens = 500;
  cache_read_tokens = 1000;
  ai_cost = 23000000000;
  compute_ms = 0;
  compute_cost = 0;
  storage_bytes = 0;
  third_party_calls = 0;
  third_party_cost = 0;
}

abbrev unreadable : TokenUsage
unreadable = record usage { output_tokens = not_finite }

abbrev unmetered : MeterError
unmetered = unmetered_call "output tokens" "code_review"

call_refused :
    (push_result meter (model_record "code_review" "claude-opus-5" unreadable)).1 ≡ err unmetered
unfolding model_record count_usage
call_refused = refl

abbrev calls : List Call
calls =
    headroom 0
    ∷ model_call "code_review" "claude-opus-5" usage
    ∷ compute_call "browser" (counted 60000) (counted 2048) (counted 0)
    ∷ []

run_is_Capped_example : (0 < 500000000000) × Capped 500000000000 (run meter calls)
run_is_Capped_example = run_is_Capped 500000000000 meter calls (unfold new_meter in refl)

abbrev spent : CostMeter
spent = record { max_run_cost = 1000; records = billed ∷ [] }

summary_lem_example :
    HasDistinctKeys (summarise_by_stage spent)
    × ((stage : String)
        → cost_or (lookup stage (summarise_by_stage spent))
          ≡ total_of (of_stage stage spent.records))
    × (total_from (summarise_by_stage spent) ≡ total spent)
summary_lem_example = summary_lem spent
