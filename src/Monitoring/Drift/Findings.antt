-- ===== src/Monitoring/Drift/Findings.antt =====
-- The findings of a comparison (packages/monitoring/src/drift.ts): which are compared, and into
-- which list each one goes.
use vibefy.Prelude.{
  ◌≤◌, String, true, ◌&&◌, some, List, [], ◌∷◌, Memᴰ, ◌==◌, text_eq, eq_sound, eq_refl,
  if◌then◌else◌, ◌≡◌, ap, ◌∙◌, ◌⊎◌, inl, inr, and_true, Bool-cases, Option-cases, arith,
}
use vibefy.Prelude.Dict.{lookup, lookup-insert, HasDistinctKeys, insert-HasDistinctKeys}
use vibefy.Monitoring.Types.{severity_rank, ComparableFinding, AssessmentSnapshot}
use vibefy.Monitoring.Drift.{
  finding_key, Findings, is_worse, keep_worst, published_from, published_by_key,
}

-- What one turn of the loop leaves under a key.
lookup-keep_worst :
    (k : String) (f : ComparableFinding) (m : Findings)
    → lookup k (keep_worst f m) ≡ (
        if f.is_published && ((finding_key f == k) && is_worse f (lookup k m))
        then some f
        else lookup k m)
unfolding keep_worst
lookup-keep_worst k f m = elim (Bool-cases (finding_key f == k)) [
  | inl same ↦ ground (
    arith,
    same,
    lookup-insert (finding_key f) k f m,
    ap (λ (x : String). lookup x m) (eq_sound (finding_key f) k same),
  )
  | inr other ↦ ground (arith, other, lookup-insert (finding_key f) k f m)
]

-- A finding that the map holds under a key at least as seriously as `f`.
abbrev Holds : ComparableFinding → String → Findings → Type 0
Holds f k m =
    (g : ComparableFinding) × (lookup k m ≡ some g)
    × (severity_rank f.severity ≤ severity_rank g.severity)

keep_worst-Holds :
    (f g : ComparableFinding) (k : String) (m : Findings) → Holds f k m → Holds f k (keep_worst g m)
keep_worst-Holds f g k m (h, found, le) =
    elim (Bool-cases (g.is_published && ((finding_key g == k) && is_worse g (lookup k m)))) [
      | inl taken ↦ (g, lookup-keep_worst k g m ∙ rw taken, ground arith)
      | inr left ↦ (h, lookup-keep_worst k g m ∙ rw (left) found, le)
    ]

keep_worst-Holds_self :
    (f : ComparableFinding) (m : Findings)
    → f.is_published ≡ true
    → Holds f (finding_key f) (keep_worst f m)
keep_worst-Holds_self f m shown = elim (Bool-cases (is_worse f (lookup (finding_key f) m))) [
  | inl worse ↦ (
    f,
    ground (arith, lookup-keep_worst (finding_key f) f m, eq_refl (finding_key f)),
    ground arith,
  )
  | inr milder ↦ elim (Option-cases (lookup (finding_key f) m)) [
    | inl missing ↦ cc (rw missing at milder)
    | inr (g, found) ↦ (g, ground (arith, lookup-keep_worst (finding_key f) f m), ground arith)
  ]
]

published_from-Holds :
    (f : ComparableFinding) (k : String) (fs : List ComparableFinding) (m : Findings)
    → Holds f k m
    → Holds f k (published_from fs m)
unfolding published_from
published_from-Holds f k [] m h = h
published_from-Holds f k (g ∷ fs) m h =
    published_from-Holds f k fs (keep_worst g m) (keep_worst-Holds f g k m h)

published_from_covers :
    (f : ComparableFinding) (fs : List ComparableFinding) (m : Findings)
    → Memᴰ f fs
    → f.is_published ≡ true
    → Holds f (finding_key f) (published_from fs m)
unfolding published_from
published_from_covers f [] m i shown = elim i [ ]
published_from_covers f (g ∷ fs) m (Memᴰ.head q) shown =
    published_from-Holds f (finding_key f) fs (keep_worst g m)
      (rw (← q) (keep_worst-Holds_self f m shown))
published_from_covers f (g ∷ fs) m (Memᴰ.tail i) shown =
    published_from_covers f fs (keep_worst g m) i shown

-- What the map holds under a key came from the findings: published, and with that key.
abbrev CameFrom : String → ComparableFinding → List ComparableFinding → Type 0
CameFrom k g fs = Memᴰ g fs × (g.is_published ≡ true) × (finding_key g ≡ k)

published_from_sound :
    (k : String) (g : ComparableFinding) (fs : List ComparableFinding) (m : Findings)
    → lookup k (published_from fs m) ≡ some g
    → CameFrom k g fs ⊎ (lookup k m ≡ some g)
unfolding published_from
published_from_sound k g [] m e = inr e
published_from_sound k g (f ∷ fs) m e = elim (published_from_sound k g fs (keep_worst f m) e) [
  | inl (i, shown, same) ↦ inl (Memᴰ.tail i, shown, same)
  | inr kept ↦
      elim (Bool-cases (f.is_published && ((finding_key f == k) && is_worse f (lookup k m)))) [
        | inl taken ↦
            let (shown, rest) = and_true f.is_published _ taken in
            let (same_key, worse) = and_true (finding_key f == k) _ rest in
            let stored : lookup k (keep_worst f m) ≡ some f = lookup-keep_worst k f m ∙ rw taken in
            let same : g ≡ f = cc (kept, stored) in
            inl (
              Memᴰ.head same,
              ap (λ (x : ComparableFinding). x.is_published) same ∙ shown,
              ap finding_key same ∙ eq_sound (finding_key f) k same_key,
            )
        | inr left ↦ inr (ground (arith, lookup-keep_worst k f m))
      ]
]

-- Of the published findings with one key the comparison sees one that is at least as serious as
-- each of the others; it sees one for every key that a published finding has, and no other.
pub published_by_key_worst :
    (s : AssessmentSnapshot) (k : String)
    → ((f : ComparableFinding)
        → Memᴰ f s.findings
        → f.is_published ≡ true
        → finding_key f ≡ k
        → (g : ComparableFinding) × (lookup k (published_by_key s) ≡ some g)
          × (severity_rank f.severity ≤ severity_rank g.severity))
      × ((g : ComparableFinding)
          → lookup k (published_by_key s) ≡ some g
          → Memᴰ g s.findings × (g.is_published ≡ true) × (finding_key g ≡ k))
unfolding published_by_key lookup
published_by_key_worst s k = (
  (λ f i shown same. rw (← same) (published_from_covers f s.findings [] i shown)),
  λ g e. elim (published_from_sound k g s.findings [] e) [ inl came ↦ came | inr nowhere ↦ cc ],
)

keep_worst-HasDistinctKeys :
    (f : ComparableFinding) (m : Findings) → HasDistinctKeys m → HasDistinctKeys (keep_worst f m)
unfolding keep_worst
keep_worst-HasDistinctKeys f m h = elim (Bool-cases f.is_published) [
  | inl shown ↦ elim (Bool-cases (is_worse f (lookup (finding_key f) m))) [
    | inl worse ↦ simp (shown, worse) (insert-HasDistinctKeys (finding_key f) f m h)
    | inr milder ↦ simp (shown, milder) h
  ]
  | inr withheld ↦ simp withheld h
]

published_from-HasDistinctKeys :
    (fs : List ComparableFinding) (m : Findings)
    → HasDistinctKeys m
    → HasDistinctKeys (published_from fs m)
unfolding published_from
published_from-HasDistinctKeys [] m h = h
published_from-HasDistinctKeys (f ∷ fs) m h =
    published_from-HasDistinctKeys fs (keep_worst f m) (keep_worst-HasDistinctKeys f m h)

pub published_by_key-HasDistinctKeys :
    (s : AssessmentSnapshot) → HasDistinctKeys (published_by_key s)
unfolding published_by_key
published_by_key-HasDistinctKeys s = published_from-HasDistinctKeys s.findings [] tt
