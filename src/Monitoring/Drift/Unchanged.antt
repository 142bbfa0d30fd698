-- ===== src/Monitoring/Drift/Unchanged.antt =====
-- What does not move a comparison (packages/monitoring/src/drift.ts): findings that were withheld,
-- and an assessment that finds what the one before it found.
use native.Mathlib.Omega.{arith}
use vibefy.Prelude.{
  ℕ, String, Bool, true, false, not, Option, some, List, [], ◌∷◌, ◌++◌, Memᴰ, mem_map→, text_eq,
  eq_refl, ◌≡◌, refl, sym, ap, ◌∙◌,
}
use vibefy.Prelude.Int.{pos, sub_ℕ}
use vibefy.Prelude.Dict.{lookup, lookup_of_mem, HasDistinctKeys}
use vibefy.Prelude.Sort.{sort}
use vibefy.Monitoring.Types.{ComparableFinding, AssessmentSnapshot, DimensionDelta, Drift}
use vibefy.Monitoring.Drift.{
  Findings, round_delta, is_there, changes_where, escalation_of, escalated_from, keep_worst,
  published_from, published_by_key, dimension_delta, dimension_deltas, scores_of, drift_of,
}
use vibefy.Monitoring.Drift.Findings.{published_by_key-HasDistinctKeys}

keep_worst_withheld :
    (f : ComparableFinding) (m : Findings) → f.is_published ≡ false → keep_worst f m ≡ m
unfolding keep_worst
keep_worst_withheld f m h = rw h

published_from-insert :
    (f : ComparableFinding) (xs ys : List ComparableFinding) (m : Findings)
    → f.is_published ≡ false
    → published_from (xs ++ f ∷ ys) m ≡ published_from (xs ++ ys) m
unfolding published_from
published_from-insert f [] ys m h = ap (published_from ys) (keep_worst_withheld f m h)
published_from-insert f (x ∷ xs) ys m h = published_from-insert f xs ys (keep_worst x m) h

-- A withheld finding changes nothing of a comparison, on either side, wherever it stands.
drift_withheld_ignored :
    (collates_before : String → String → Bool) (previous current : AssessmentSnapshot)
    (xs ys : List ComparableFinding) (f : ComparableFinding)
    → f.is_published ≡ false
    → (drift_of collates_before (record previous { findings = xs ++ f ∷ ys }) current
        ≡ drift_of collates_before (record previous { findings = xs ++ ys }) current)
      × (drift_of collates_before previous (record current { findings = xs ++ f ∷ ys })
          ≡ drift_of collates_before previous (record current { findings = xs ++ ys }))
unfolding drift_of published_by_key dimension_deltas
drift_withheld_ignored collates_before previous current xs ys f h =
    (rw (published_from-insert f xs ys [] h), rw (published_from-insert f xs ys [] h))

changes_where_none :
    (p : Option ComparableFinding → Bool) (other m : Findings)
    → ((e : String × ComparableFinding) → Memᴰ e m → p (lookup e.0 other) ≡ false)
    → changes_where p other m ≡ []
unfolding changes_where
changes_where_none p other [] h = refl
changes_where_none p other ((key, f) ∷ m) h =
    rw (h (key, f) (Memᴰ.head refl)) (changes_where_none p other m (λ e i. h e (Memᴰ.tail i)))

escalation_of_same : (f : ComparableFinding) → escalation_of f f ≡ []
unfolding escalation_of
escalation_of_same f = ground arith

escalated_from_none :
    (before after : Findings)
    → ((e : String × ComparableFinding) → Memᴰ e after → lookup e.0 before ≡ some e.1)
    → escalated_from before after ≡ []
unfolding escalated_from
escalated_from_none before [] h = refl
escalated_from_none before ((key, f) ∷ after) h =
    rw (h (key, f) (Memᴰ.head refl), escalated_from)
      (rw (escalation_of_same f) (escalated_from_none before after (λ e i. h e (Memᴰ.tail i))))

round_delta_zero : (n : ℕ) → round_delta (sub_ℕ n n) ≡ pos 0
unfolding round_delta
round_delta_zero n = ground arith

self_delta :
    (scores : List (String × ℕ)) (dimension : String)
    → let d = dimension_delta scores scores dimension in d.before ≡ d.after
unfolding dimension_delta
self_delta scores dimension = refl

self_nothing_absent :
    (m : Findings) → HasDistinctKeys m → changes_where (λ o. not (is_there o)) m m ≡ []
self_nothing_absent m distinct =
    changes_where_none _ m m (λ e i. rw (lookup_of_mem {k = e.0} {v = e.1} m distinct i))

self_nothing_escalated : (m : Findings) → HasDistinctKeys m → escalated_from m m ≡ []
self_nothing_escalated m distinct =
    escalated_from_none m m (λ e i. lookup_of_mem {k = e.0} {v = e.1} m distinct i)

self_deltas :
    (s : AssessmentSnapshot) (e : DimensionDelta)
    → Memᴰ e (dimension_deltas s s)
    → e.before ≡ e.after
unfolding dimension_deltas
self_deltas s e i =
    let scores = scores_of s.dimensions in
    let (dimension, _, q) = mem_map→ (dimension_delta scores scores) _ i in
    ap (λ (x : DimensionDelta). x.before) q
    ∙ self_delta scores dimension
    ∙ ap (λ (x : DimensionDelta). x.after) (sym q)

-- What a comparison says when nothing has changed.
pub record IsUnchanged (d : Drift) : Type 0 where
  pub none_new : d.new_findings ≡ []
  pub none_resolved : d.resolved_findings ≡ []
  pub none_escalated : d.escalated_findings ≡ []
  pub score_kept : d.score_delta ≡ pos 0
  pub same_score : d.score_before ≡ d.score_after
  pub dimensions_kept : (e : DimensionDelta) → Memᴰ e d.dimension_deltas → e.before ≡ e.after
  pub certification_kept : d.certification_lost ≡ false
  pub is_comparable : d.comparable ≡ true
  pub reach_kept : d.coverage_shrank ≡ false

-- A later assessment with the same result, under another id and at another time, has not changed.
pub same_result-IsUnchanged :
    (collates_before : String → String → Bool) (s : AssessmentSnapshot) (id : String) (at : ℕ)
    → IsUnchanged (drift_of collates_before s (record s { assessment_id = id; assessed_at = at }))
unfolding drift_of published_by_key sort dimension_deltas
same_result-IsUnchanged collates_before s id at = record {
  none_new = ap (sort _) (self_nothing_absent _ (published_by_key-HasDistinctKeys s));
  none_resolved = ap (sort _) (self_nothing_absent _ (published_by_key-HasDistinctKeys s));
  none_escalated = ap (sort _) (self_nothing_escalated _ (published_by_key-HasDistinctKeys s));
  score_kept = round_delta_zero s.overall_score;
  same_score = refl;
  dimensions_kept = self_deltas s;
  certification_kept = ground arith;
  is_comparable = rw (eq_refl s.rubric_version);
  reach_kept = ground arith;
}
