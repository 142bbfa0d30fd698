-- ===== src/Monitoring/Drift.antt =====
-- packages/monitoring/src/drift.ts: what changed between two assessments. `localeCompare`, which
-- depends on the collation of the machine, is the parameter `collates_before`.
pub mod Findings
pub mod Partition
pub mod Unchanged
mod Tests
use Prim.Native.Nat.{Ordering}
use Prim.Native.String.{compare, ◌++◌ as str_append}
use vibefy.Prelude.{
  ℕ, suc, ◌+◌, ◌-◌, ◌*◌, ◌/◌, String, Bool, true, false, not, ◌&&◌, Option, none, some, List, [],
  ◌∷◌, ◌++◌, map, ◌==◌, text_eq, includes, ltb, if◌then◌else◌, Result, ok, err,
}
use vibefy.Prelude.Int.{ℤ, pos, negsuc, sub_ℕ, neg_ℕ}
use vibefy.Prelude.Dict.{lookup, insert, insert_all}
use vibefy.Prelude.Sort.{sort}
use vibefy.Monitoring.Types.{
  MonitoredSeverity, severity_rank, ComparableFinding, AssessmentSnapshot, DimensionDelta,
  FindingChange, Escalation, Drift,
}

-- `${dimension}:${ruleId}`.
pub finding_key : ComparableFinding → String
finding_key f = str_append f.dimension (str_append ":" f.rule_id)

-- `round(value)` to two decimals, of a score and of a difference. `Math.round` takes a half up, also
-- below zero.
pub round_score : ℕ → ℕ
round_score n = (n + 50) / 100 * 100

pub round_delta : ℤ → ℤ
round_delta (pos n) = pos ((n + 50) / 100 * 100)
round_delta (negsuc n) = neg_ℕ ((suc n + 49) / 100 * 100)

pub to_change : ComparableFinding → FindingChange
to_change f = record {
  key = finding_key f;
  rule_id = f.rule_id;
  dimension = f.dimension;
  severity = f.severity;
  title = f.title;
}

abbrev pub Findings : Type 0
Findings = List (String × ComparableFinding)

-- `!existing || severityRank(finding.severity) > severityRank(existing.severity)`.
abbrev pub is_worse : ComparableFinding → Option ComparableFinding → Bool
is_worse f none = true
is_worse f (some existing) = ltb (severity_rank existing.severity) (severity_rank f.severity)

-- One turn of the loop of `publishedByKey`.
pub keep_worst : ComparableFinding → Findings → Findings
keep_worst f m =
    let key = finding_key f in
    if not f.is_published then m else if is_worse f (lookup key m) then insert key f m else m

pub published_from : List ComparableFinding → Findings → Findings
published_from [] m = m
published_from (f ∷ fs) m = published_from fs (keep_worst f m)

pub published_by_key : AssessmentSnapshot → Findings
published_by_key snapshot = published_from snapshot.findings []

-- `new Map(entries)` of the scores: the last score given for a dimension counts.
pub scores_of : List (String × ℕ) → List (String × ℕ)
scores_of entries = insert_all entries []

-- `[...new Set(names)]`, from the names met so far.
pub distinct_from : List String → List String → List String
distinct_from seen [] = []
distinct_from seen (x ∷ xs) =
    let rest = distinct_from (x ∷ seen) xs in
    let skipped = distinct_from seen xs in if includes seen x then skipped else x ∷ rest

-- The default order of `Array.prototype.sort` on strings.
abbrev pub text_before : String → String → Bool
text_before a b = elim (compare a b) [ Ordering.lt ↦ true | _ ↦ false ]

abbrev or_zero : Option ℕ → ℕ
or_zero none = 0
or_zero (some n) = n

pub dimension_delta : List (String × ℕ) → List (String × ℕ) → String → DimensionDelta
dimension_delta before after dimension =
    let a = or_zero (lookup dimension before) in
    let b = or_zero (lookup dimension after) in
    record {
      dimension = dimension;
      before = round_score a;
      after = round_score b;
      delta = round_delta (sub_ℕ b a);
    }

abbrev keys {ℓ} : {V : Type ℓ} → List (String × V) → List String
keys m = map (λ e. e.0) m

pub dimension_deltas : AssessmentSnapshot → AssessmentSnapshot → List DimensionDelta
dimension_deltas previous current =
    let before = scores_of previous.dimensions in
    let after = scores_of current.dimensions in
    map (dimension_delta before after)
      (sort text_before (distinct_from [] (keys before ++ keys after)))

abbrev pub is_there : Option ComparableFinding → Bool
is_there none = false
is_there (some f) = true

-- The changes for those entries of a map of which the other map's value under the same key passes.
pub changes_where : (Option ComparableFinding → Bool) → Findings → Findings → List FindingChange
changes_where p other [] = []
changes_where p other ((key, f) ∷ m) =
    let rest = changes_where p other m in if p (lookup key other) then to_change f ∷ rest else rest

-- The loop over `after`: what was not there before is new, the rest persists.
abbrev pub new_from : Findings → Findings → List FindingChange
new_from before after = changes_where (λ was. not (is_there was)) before after

abbrev pub persisting_from : Findings → Findings → List FindingChange
persisting_from before after = changes_where is_there before after

pub escalation_of : ComparableFinding → ComparableFinding → List Escalation
escalation_of was f =
    if ltb (severity_rank was.severity) (severity_rank f.severity)
    then record { change = to_change f; was_severity = was.severity } ∷ []
    else []

pub escalated_from : Findings → Findings → List Escalation
escalated_from before [] = []
escalated_from before ((key, f) ∷ after) = elim (lookup key before) [
  | none ↦ escalated_from before after
  | some was ↦ escalation_of was f ++ escalated_from before after
]

-- The loop over `before`: what is not there any more is resolved.
abbrev pub resolved_from : Findings → Findings → List FindingChange
resolved_from after before = changes_where (λ now. not (is_there now)) after before

pub data DriftError : Type 0 where
  same_assessment : DriftError

module _ (collates_before : String → String → Bool) where
  abbrev by_key : FindingChange → FindingChange → Bool
  by_key a b = collates_before a.key b.key

  abbrev escalation_by_key : Escalation → Escalation → Bool
  escalation_by_key a b = by_key a.change b.change

  pub drift_of : AssessmentSnapshot → AssessmentSnapshot → Drift
  drift_of previous current =
      let before = published_by_key previous in
      let after = published_by_key current in
      let rubric_changed = not (previous.rubric_version == current.rubric_version) in
      record {
        previous_assessment_id = previous.assessment_id;
        assessment_id = current.assessment_id;
        score_before = round_score previous.overall_score;
        score_after = round_score current.overall_score;
        score_delta = round_delta (sub_ℕ current.overall_score previous.overall_score);
        dimension_deltas = dimension_deltas previous current;
        new_findings = sort by_key (new_from before after);
        resolved_findings = sort by_key (resolved_from after before);
        persisting_findings = sort by_key (persisting_from before after);
        escalated_findings = sort escalation_by_key (escalated_from before after);
        certification_before = previous.certification_eligible;
        certification_after = current.certification_eligible;
        certification_lost = previous.certification_eligible && not current.certification_eligible;
        rubric_version_changed = rubric_changed;
        comparable = not rubric_changed;
        not_tested_before = previous.not_tested_count;
        not_tested_after = current.not_tested_count;
        coverage_shrank = ltb previous.not_tested_count current.not_tested_count;
      }

  pub compute_drift : AssessmentSnapshot → AssessmentSnapshot → Result DriftError Drift
  compute_drift previous current =
      if previous.assessment_id == current.assessment_id
      then err same_assessment
      else ok (drift_of previous current)
