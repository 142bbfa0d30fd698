-- ===== src/Monitoring/Drift/Partition.antt =====
-- Into which list of a comparison each finding goes (packages/monitoring/src/drift.ts).
use vibefy.Prelude.{
  ◌≤◌, ◌≢◌, List, Option-cases, String, Bool, true, not, Option, none, some, [], ◌∷◌, Memᴰ, text_eq,
  ◌≡◌, refl, sym, ap, ◌∙◌, ◌↔◌, inl, inr, Bool-cases, arith,
}
use vibefy.Prelude.Dict.{lookup, mem_of_lookup, lookup_of_mem, HasDistinctKeys}
use vibefy.Prelude.Sort.{sort, mem_sort→, mem_sort←}
use vibefy.Monitoring.Types.{severity_rank, ComparableFinding, AssessmentSnapshot, FindingChange}
use vibefy.Monitoring.Drift.{
  finding_key, to_change, Findings, is_there, changes_where, published_by_key, drift_of, by_key,
}
use vibefy.Monitoring.Drift.Findings.{published_by_key-HasDistinctKeys, published_by_key_worst}

module _ (p : Option ComparableFinding → Bool) (other : Findings) where
  abbrev Changed : Findings → FindingChange → Type 0
  Changed m c =
      (k : String) × (f : ComparableFinding) × Memᴰ (k, f) m
      × (p (lookup k other) ≡ true)
      × (c ≡ to_change f)

  changes_where→ :
      (m : Findings) (c : FindingChange) → Memᴰ c (changes_where p other m) → Changed m c
  unfolding changes_where
  changes_where→ [] c i = elim i [ ]
  changes_where→ ((key, f) ∷ m) c i = elim (Bool-cases (p (lookup key other))) [
    | inl passes ↦ here passes (changes_where→ m c) (rw (passes, changes_where) at i)
    | inr fails ↦
        let (k, g, member, e, q) = changes_where→ m c (rw (fails, changes_where) at i) in
        (k, g, Memᴰ.tail member, e, q)
  ]
    where
      here :
          p (lookup key other) ≡ true
          → (Memᴰ c (changes_where p other m) → Changed m c)
          → Memᴰ c (to_change f ∷ changes_where p other m)
          → Changed ((key, f) ∷ m) c
      here passes rest (Memᴰ.head q) = (key, f, Memᴰ.head refl, passes, q)
      here passes rest (Memᴰ.tail j) =
          let (k, g, member, e, q) = rest j in (k, g, Memᴰ.tail member, e, q)

  changes_where← :
      {k : String} {f : ComparableFinding} (m : Findings)
      → Memᴰ (k, f) m
      → p (lookup k other) ≡ true
      → Memᴰ (to_change f) (changes_where p other m)
  unfolding changes_where
  changes_where← {k} {f} [] i passes = elim i [ ]
  changes_where← {k} {f} ((key, g) ∷ m) (Memᴰ.head q) passes =
      rw (ap (λ (x : String × ComparableFinding). p (lookup x.0 other)) (sym q) ∙ passes)
        (Memᴰ.head (ap (λ (x : String × ComparableFinding). to_change x.1) q))
  changes_where← {k} {f} ((key, g) ∷ m) (Memᴰ.tail i) passes =
      elim (Bool-cases (p (lookup key other))) [
        | inl also ↦ rw also (Memᴰ.tail (changes_where← m i passes))
        | inr fails ↦ rw fails (changes_where← m i passes)
      ]

-- A change is in a sorted list of changes exactly when it is that of a finding of the one map whose
-- key is as the test says in the other.
changes_iff :
    (collates_before : String → String → Bool) (p : Option ComparableFinding → Bool)
    (Q : Option ComparableFinding → Type 0) (other m : Findings) (c : FindingChange)
    → ((o : Option ComparableFinding) → (p o ≡ true) ↔ Q o)
    → HasDistinctKeys m
    → Memᴰ c (sort (by_key collates_before) (changes_where p other m)) ↔ (
        (k : String) × (f : ComparableFinding) × (lookup k m ≡ some f)
        × Q (lookup k other)
        × (c ≡ to_change f))
changes_iff collates_before p Q other m c test distinct = (
  (λ i.
      let (k, f, member, e, q) =
        changes_where→ p other m c (mem_sort→ (by_key collates_before) _ i) in
      (k, f, lookup_of_mem m distinct member, (test _).0 e, q)),
  λ (k, f, found, e, q).
      mem_sort← (by_key collates_before)
        (rw q (changes_where← p other m (mem_of_lookup m found) ((test _).1 e))),
)

absent : (o : Option ComparableFinding) → (not (is_there o) ≡ true) ↔ (o ≡ none)
absent o = ground arith

present :
    (o : Option ComparableFinding) → (is_there o ≡ true) ↔ ((f : ComparableFinding) × (o ≡ some f))
present none = ((λ h. cc), λ (f, h). cc)
present (some f) = ((λ h. (f, refl)), λ h. refl)

-- An assessment publishes a finding of a key.
abbrev pub IsPublished : String → AssessmentSnapshot → Type 0
IsPublished k s =
    (f : ComparableFinding) × Memᴰ f s.findings × (f.is_published ≡ true) × (finding_key f ≡ k)

-- A change describes a published finding of an assessment, and of those with its key a most serious
-- one.
abbrev pub Describes : FindingChange → AssessmentSnapshot → Type 0
Describes c s =
    (f : ComparableFinding) × Memᴰ f s.findings
    × (f.is_published ≡ true)
    × (c ≡ to_change f)
    × ((g : ComparableFinding)
        → Memᴰ g s.findings
        → g.is_published ≡ true
        → finding_key g ≡ finding_key f
        → severity_rank g.severity ≤ severity_rank f.severity)

abbrev pub HasKey : String → List FindingChange → Type 0
HasKey k cs = (c : FindingChange) × Memᴰ c cs × (c.key ≡ k)

module _ (s : AssessmentSnapshot) where
  IsPublished-found : (k : String) → IsPublished k s → lookup k (published_by_key s) ≢ none
  IsPublished-found k (f, i, shown, same) missing =
      let (g, found, _) = (published_by_key_worst s k).0 f i shown same in cc (found, missing)

  found-IsPublished :
      (k : String) {f : ComparableFinding}
      → lookup k (published_by_key s) ≡ some f
      → IsPublished k s × (finding_key f ≡ k)
  found-IsPublished k {f} found =
      let (i, shown, same) = (published_by_key_worst s k).1 f found in ((f, i, shown, same), same)

  missing_iff : (k : String) → (lookup k (published_by_key s) ≡ none) ↔ (IsPublished k s → ⊥)
  missing_iff k = (
    λ missing public. IsPublished-found k public missing,
    λ unseen. elim (Option-cases (lookup k (published_by_key s))) [
      | inl missing ↦ missing
      | inr (f, found) ↦ absurd (unseen (found-IsPublished k found).0)
    ],
  )

  there_iff :
      (k : String)
      → ((g : ComparableFinding) × (lookup k (published_by_key s) ≡ some g)) ↔ IsPublished k s
  there_iff k = (
    λ (g, found). (found-IsPublished k found).0,
    λ (f, i, shown, same).
        let (g, found, _) = (published_by_key_worst s k).0 f i shown same in (g, found),
  )

  found-Describes :
      (k : String) (f : ComparableFinding)
      → lookup k (published_by_key s) ≡ some f
      → Describes (to_change f) s
  found-Describes k f found =
      let (i, shown, same) = (published_by_key_worst s k).1 f found in
      (
        f,
        i,
        shown,
        refl,
        λ g j also alike.
            let (h, held, worse) = (published_by_key_worst s k).0 g j also (alike ∙ same) in
            let is_f : h ≡ f = cc (held, found) in rw is_f at worse,
      )

  -- A list of the changes for those keys of the assessment that pass a test.
  listed :
      (Q Q' : String → Type 0) (cs : List FindingChange)
      → ((k : String) → Q k ↔ Q' k)
      → ((c : FindingChange)
          → Memᴰ c cs ↔ (
              (k : String) × (f : ComparableFinding) × (lookup k (published_by_key s) ≡ some f)
              × Q k
              × (c ≡ to_change f)))
      → ((k : String) → HasKey k cs ↔ (IsPublished k s × Q' k))
        × ((c : FindingChange) → Memᴰ c cs → Describes c s)
  unfolding to_change
  listed Q Q' cs test those = (
    λ k. (
      λ (c, i, named).
          let (k', f, found, q, made) = (those c).0 i in
          let (public, same) = found-IsPublished k' found in
          let here : k' ≡ k = sym same ∙ sym (ap (λ (x : FindingChange). x.key) made) ∙ named in
          rw (← here) (public, (test k').0 q),
      λ (public, q).
          let (f, found) = (there_iff k).1 public in
          (
            to_change f,
            (those (to_change f)).1 (k, f, found, (test k).1 q, refl),
            (found-IsPublished k found).1,
          ),
    ),
    λ c i. let (k, f, found, _, made) = (those c).0 i in rw made (found-Describes k f found),
  )

-- A key is among the new findings exactly when the later assessment publishes a finding of it and the
-- earlier one none; among those that persist when both do; among the resolved ones when only the
-- earlier one does. Each new or persisting entry describes a published finding of the later
-- assessment, each resolved one of the earlier, and among those with its key a most serious one.
pub drift_partition :
    (collates_before : String → String → Bool) (previous current : AssessmentSnapshot)
    → let d = drift_of collates_before previous current in
      (((k : String)
          → HasKey k d.new_findings ↔ (IsPublished k current × (IsPublished k previous → ⊥)))
        × ((c : FindingChange) → Memᴰ c d.new_findings → Describes c current))
      × (((k : String)
            → HasKey k d.persisting_findings ↔ (IsPublished k current × IsPublished k previous))
          × ((c : FindingChange) → Memᴰ c d.persisting_findings → Describes c current))
      × (((k : String)
            → HasKey k d.resolved_findings ↔ (IsPublished k previous × (IsPublished k current → ⊥)))
          × ((c : FindingChange) → Memᴰ c d.resolved_findings → Describes c previous))
unfolding drift_of
drift_partition collates_before previous current =
    let before = published_by_key previous in
    let after = published_by_key current in
    let distinct_before = published_by_key-HasDistinctKeys previous in
    let distinct_after = published_by_key-HasDistinctKeys current in
    (
      listed current (λ k. lookup k before ≡ none) _ _ (missing_iff previous)
          (λ c. changes_iff collates_before _ (λ o. o ≡ none) before after c absent distinct_after),
      listed current (λ k. (g : ComparableFinding) × (lookup k before ≡ some g)) _ _
          (there_iff previous)
          (λ c.
            changes_iff collates_before is_there (λ o. (g : ComparableFinding) × (o ≡ some g))
              before after c present distinct_after),
      listed previous (λ k. lookup k after ≡ none) _ _ (missing_iff current)
          (λ c.
            changes_iff collates_before _ (λ o. o ≡ none) after before c absent distinct_before),
    )
