-- ===== src/Monitoring/Regression.antt =====
-- packages/monitoring/src/regression.ts: when a change takes a badge down. The sentence that a rule
-- shows the customer is a constructor of `Explanation` with the values that it quotes.
pub mod Rules
pub mod Verdict
mod Tests
use vibefy.Prelude.{
  ℕ, suc, ◌-◌, String, Bool, true, false, not, ◌&&◌, Option, none, some, List, [], ◌∷◌, map, ◌==◌,
  text_eq, includes, filter, length, take, leb, ltb, is_empty, if◌then◌else◌,
}
use vibefy.Prelude.Int.{ℤ, pos_part, neg_part, leb_ℤ, neg_ℕ, ◌-ℤ◌}
use vibefy.Prelude.Dict.{lookup}
use vibefy.Monitoring.Types.{
  MonitoredSeverity, severity_rank, severity_eq, DimensionDelta, FindingChange, Escalation, Drift,
}

pub record MaterialityPolicy : Type 0 where
  pub score_drop_points : ℕ
  pub serious_severities : List MonitoredSeverity
  pub sensitive_dimensions : List String
  pub dimension_floors : List (String × ℕ)
  pub certification_threshold : ℕ

abbrev pub default_materiality_policy : MaterialityPolicy
default_materiality_policy = record {
  score_drop_points = 80000;
  serious_severities = MonitoredSeverity.critical ∷ MonitoredSeverity.high ∷ [];
  sensitive_dimensions = "security_posture" ∷ "data_privacy_practice" ∷ [];
  dimension_floors =
      ("security_posture", 650000)
      ∷ ("data_privacy_practice", 600000)
      ∷ ("functional_integrity", 600000)
      ∷ [];
  certification_threshold = 700000;
}

pub data RegressionRuleId : Type 0 where
  certification_lost serious_new_security_finding serious_escalation score_drop : RegressionRuleId
  score_below_certification_threshold dimension_below_floor : RegressionRuleId

-- `list(titles)`: the first three, and how many more there are.
pub record Titles : Type 0 where
  pub shown : List String
  pub more : ℕ

pub data Explanation : Type 0 where
  no_longer_certified : Explanation
  new_serious : MonitoredSeverity → String → Titles → Explanation
  became_serious : MonitoredSeverity → MonitoredSeverity → Titles → Explanation
  fell_by : ℕ → ℕ → ℕ → Explanation
  fell_below_threshold : ℕ → ℕ → Explanation
  fell_below_floor : String → Option ℕ → ℕ → Explanation

pub record RegressionReason : Type 0 where
  pub rule : RegressionRuleId
  pub explanation : Explanation

-- Why a suspension is withheld, with the counts that the second sentence quotes.
pub data Withheld : Type 0 where
  rubric_changed : Withheld
  narrower_look : ℕ → ℕ → Withheld

pub record MaterialityVerdict : Type 0 where
  pub material : Bool
  pub reasons : List RegressionReason
  pub suspend_badge : Bool
  pub withheld_because : Option Withheld

pub list_titles : List String → Titles
list_titles titles = record { shown = take 3 titles; more = length titles - 3 }

pub is_serious_new : MaterialityPolicy → FindingChange → Bool
is_serious_new policy f =
    includes policy.sensitive_dimensions f.dimension
    && includes policy.serious_severities f.severity

pub is_serious_escalation : MaterialityPolicy → Escalation → Bool
is_serious_escalation policy e =
    includes policy.serious_severities e.change.severity
    && (not (includes policy.serious_severities e.was_severity)
        && ltb (severity_rank e.was_severity) (severity_rank e.change.severity))

abbrev floor_breached : DimensionDelta → Option ℕ → Bool
floor_breached entry none = false
floor_breached entry (some floor) = leb floor entry.before && ltb entry.after floor

pub is_breached : MaterialityPolicy → DimensionDelta → Bool
is_breached policy entry = floor_breached entry (lookup entry.dimension policy.dimension_floors)

abbrev titles_of : List FindingChange → List String
titles_of fs = map (λ (f : FindingChange). f.title) fs

-- `if (serious.length === 0) return null; return …serious[0]…`.
abbrev explain_new : List FindingChange → Option Explanation
unfolding list_titles
explain_new [] = none
explain_new (f ∷ fs) = some (new_serious f.severity f.dimension (list_titles (titles_of (f ∷ fs))))

abbrev explain_escalated : List Escalation → Option Explanation
unfolding list_titles
explain_escalated [] = none
explain_escalated (e ∷ es) = some (
    became_serious e.was_severity e.change.severity
      (list_titles (map (λ (x : Escalation). x.change.title) (e ∷ es))))

abbrev explain_breached : MaterialityPolicy → List DimensionDelta → Option Explanation
explain_breached policy [] = none
explain_breached policy (d ∷ ds) =
    some (fell_below_floor d.dimension (lookup d.dimension policy.dimension_floors) d.after)

-- `Math.abs(value)`.
abbrev magnitude : ℤ → ℕ
magnitude (ℤ.pos n) = n
magnitude (ℤ.negsuc n) = suc n

-- The `evaluate` of each rule of `RULES`.
pub evaluate : RegressionRuleId → Drift → MaterialityPolicy → Option Explanation
unfolding list_titles
evaluate certification_lost drift policy =
    if drift.certification_lost then some no_longer_certified else none
evaluate serious_new_security_finding drift policy =
    explain_new (filter (is_serious_new policy) drift.new_findings)
evaluate serious_escalation drift policy =
    explain_escalated (filter (is_serious_escalation policy) drift.escalated_findings)
evaluate score_drop drift policy =
    if leb_ℤ drift.score_delta (neg_ℕ policy.score_drop_points)
    then some (fell_by (magnitude drift.score_delta) drift.score_before drift.score_after)
    else none
evaluate score_below_certification_threshold drift policy =
    if leb policy.certification_threshold drift.score_before
      && ltb drift.score_after policy.certification_threshold
    then some (fell_below_threshold policy.certification_threshold drift.score_after)
    else none
evaluate dimension_below_floor drift policy =
    explain_breached policy (filter (is_breached policy) drift.dimension_deltas)

abbrev pub rules : List RegressionRuleId
rules =
    certification_lost ∷ serious_new_security_finding ∷ serious_escalation ∷ score_drop
    ∷ score_below_certification_threshold ∷ dimension_below_floor ∷ []

abbrev with_reason :
    RegressionRuleId → Option Explanation → List RegressionReason → List RegressionReason
with_reason id none rest = rest
with_reason id (some e) rest = record { rule = id; explanation = e } ∷ rest

-- The loop over `RULES`: every rule that fires, not the first.
pub reasons_of : List RegressionRuleId → Drift → MaterialityPolicy → List RegressionReason
reasons_of [] drift policy = []
reasons_of (id ∷ ids) drift policy =
    with_reason id (evaluate id drift policy) (reasons_of ids drift policy)

pub assess_materiality : Drift → MaterialityPolicy → MaterialityVerdict
assess_materiality drift policy =
    let reasons = reasons_of rules drift policy in
    if not drift.comparable
    then record {
      material = false;
      reasons = reasons;
      suspend_badge = false;
      withheld_because = some rubric_changed;
    }
    else if drift.coverage_shrank
    then record {
      material = false;
      reasons = reasons;
      suspend_badge = false;
      withheld_because = some (narrower_look drift.not_tested_after drift.not_tested_before);
    }
    else record {
      material = not (is_empty reasons);
      reasons = reasons;
      suspend_badge = not (is_empty reasons);
      withheld_because = none;
    }
