-- ===== src/Policy/Evaluate.antt =====
-- packages/policy/src/evaluate.ts and types.ts. A severity and a dimension are the texts that the
-- database sends, since the code provides for a severity that it does not know. Scores are
-- fixed-point numbers in units of 1 / 10000. The sentence of a failure is a constructor of
-- `PolicyFailure` with the values that it quotes.
pub mod Meets
pub mod Worst
mod Tests
use vibefy.Prelude.{
  ℕ, suc, String, Bool, true, false, not, ◌&&◌, ◌||◌, Option, none, some, List, [], ◌∷◌, ◌++◌, map,
  ◌==◌, text_eq, filter, length, is_empty, ltb, if◌then◌else◌,
}
use vibefy.Prelude.Dict.{lookup, insert_all}

pub record PolicyProfile : Type 0 where
  pub id : String
  pub name : String
  pub min_overall_score : Option ℕ
  pub dimension_floors : List (String × ℕ)
  pub max_open_severity : Option String
  pub require_certification : Bool
  pub require_store_readiness : Bool

pub record OpenFinding : Type 0 where
  pub rule_id : String
  pub dimension : String
  pub severity : String
  pub title : String

pub record PolicySubject : Type 0 where
  pub assessment_id : String
  pub overall_score : ℕ
  pub certification_eligible : Bool
  pub dimensions : List (String × ℕ)
  pub open_findings : List OpenFinding
  pub intended_for_app_store : Bool

pub data PolicyRuleId : Type 0 where
  min_overall_score dimension_floor max_open_severity : PolicyRuleId
  require_certification require_store_readiness : PolicyRuleId

pub data PolicyFailure : Type 0 where
  score_too_low : ℕ → ℕ → PolicyFailure
  not_scored : String → ℕ → PolicyFailure
  below_floor : String → ℕ → ℕ → PolicyFailure
  unknown_ceiling : String → PolicyFailure
  open_above : ℕ → String → OpenFinding → PolicyFailure
  not_certifiable : PolicyFailure
  not_for_a_store : PolicyFailure
  store_not_scored : PolicyFailure

pub rule_of : PolicyFailure → PolicyRuleId
rule_of (score_too_low _ _) = PolicyRuleId.min_overall_score
rule_of (not_scored _ _) = PolicyRuleId.dimension_floor
rule_of (below_floor _ _ _) = PolicyRuleId.dimension_floor
rule_of (unknown_ceiling _) = PolicyRuleId.max_open_severity
rule_of (open_above _ _ _) = PolicyRuleId.max_open_severity
rule_of not_certifiable = PolicyRuleId.require_certification
rule_of not_for_a_store = PolicyRuleId.require_store_readiness
rule_of store_not_scored = PolicyRuleId.require_store_readiness

pub record PolicyEvaluation : Type 0 where
  pub profile_id : String
  pub profile_name : String
  pub assessment_id : String
  pub meets_policy : Bool
  pub failures : List PolicyFailure

abbrev pub severity_order : List String
severity_order = "info" ∷ "low" ∷ "medium" ∷ "high" ∷ "critical" ∷ []

abbrev with_index : ℕ → List String → List (String × ℕ)
with_index n [] = []
with_index n (x ∷ xs) = (x, n) ∷ with_index (suc n) xs

-- The position in the order; `undefined` for a text that is not in it.
pub severity_rank : String → Option ℕ
severity_rank severity = lookup severity (with_index 0 severity_order)

-- `a > b`, false where one of the two is `undefined`.
abbrev is_above : Option ℕ → ℕ → Bool
is_above none n = false
is_above (some m) n = ltb n m

abbrev outranks : Option ℕ → Option ℕ → Bool
outranks a none = false
outranks a (some n) = is_above a n

abbrev score_failures : Option ℕ → ℕ → List PolicyFailure
score_failures none score = []
score_failures (some least) score = if ltb score least then score_too_low score least ∷ [] else []

abbrev floor_failure : String → ℕ → Option ℕ → List PolicyFailure
floor_failure dimension floor none = not_scored dimension floor ∷ []
floor_failure dimension floor (some score) =
    if ltb score floor then below_floor dimension score floor ∷ [] else []

pub floor_failures : List (String × ℕ) → List (String × ℕ) → List PolicyFailure
floor_failures scores [] = []
floor_failures scores ((dimension, floor) ∷ floors) =
    floor_failure dimension floor (lookup dimension scores) ++ floor_failures scores floors

-- `over.reduce((a, b) => …)`, from the first of them.
pub worst_from : OpenFinding → List OpenFinding → OpenFinding
worst_from a [] = a
worst_from a (b ∷ rest) =
    let keep = worst_from a rest in
    let change = worst_from b rest in
    if outranks (severity_rank b.severity) (severity_rank a.severity) then change else keep

abbrev over_failures : String → List OpenFinding → List PolicyFailure
over_failures permitted [] = []
over_failures permitted (f ∷ fs) = open_above (length (f ∷ fs)) permitted (worst_from f fs) ∷ []

pub over_ceiling : ℕ → List OpenFinding → List OpenFinding
over_ceiling ceiling fs =
    filter (λ (f : OpenFinding). is_above (severity_rank f.severity) ceiling) fs

abbrev ceiling_failures : String → Option ℕ → List OpenFinding → List PolicyFailure
ceiling_failures permitted none fs = unknown_ceiling permitted ∷ []
ceiling_failures permitted (some ceiling) fs = over_failures permitted (over_ceiling ceiling fs)

pub severity_failures : Option String → List OpenFinding → List PolicyFailure
severity_failures none fs = []
severity_failures (some permitted) fs = ceiling_failures permitted (severity_rank permitted) fs

abbrev certification_failures : Bool → Bool → List PolicyFailure
certification_failures required eligible =
    if required && not eligible then not_certifiable ∷ [] else []

abbrev store_score_failures : Option ℕ → List PolicyFailure
store_score_failures none = store_not_scored ∷ []
store_score_failures (some score) = []

abbrev store_failures : Bool → Bool → Option ℕ → List PolicyFailure
store_failures required intended score =
    if required
    then (if not intended then not_for_a_store ∷ [] else store_score_failures score)
    else []

-- `new Map(…)` of the scores: the last score given for a dimension counts.
abbrev pub scores_of : PolicySubject → List (String × ℕ)
scores_of subject = insert_all subject.dimensions []

pub failures_of : PolicyProfile → PolicySubject → List PolicyFailure
failures_of profile subject =
    score_failures profile.min_overall_score subject.overall_score
    ++ floor_failures (scores_of subject) profile.dimension_floors
    ++ severity_failures profile.max_open_severity subject.open_findings
    ++ certification_failures profile.require_certification subject.certification_eligible
    ++ store_failures profile.require_store_readiness subject.intended_for_app_store
        (lookup "store_distribution_readiness" (scores_of subject))

pub evaluate_policy : PolicyProfile → PolicySubject → PolicyEvaluation
evaluate_policy profile subject =
    let failures = failures_of profile subject in
    record {
      profile_id = profile.id;
      profile_name = profile.name;
      assessment_id = subject.assessment_id;
      meets_policy = is_empty failures;
      failures = failures;
    }
