-- ===== src/Report/Redact/Tiers.antt =====
-- What the tiers have in common, and what a free report does not depend on (packages/report/src/redact.ts).
use vibefy.Prelude.{
  ℕ, zero, suc, ◌+◌, ◌≤◌, String, Bool, true, false, List, [], ◌∷◌, map, length, length-map, take,
  drop, ◌≡◌, ◌⊎◌, refl, ap, inl, inr, Bool-cases, Memᴰ, mem_map→, mem_map←, arith,
}
use vibefy.Prelude.Sort.{sort, insert_sorted, mem_insert→, mem_sort←}
use vibefy.Prelude.Mapped.{sort-map, take-map}
use vibefy.Prelude.Comparing.{Sign, or_then, minus, is_before}
use vibefy.Report.Redact.{
  Evidence, ReportFinding, ReportSource, free, paid, severity_rank, free_tier_finding, comes_before,
  sort_findings, redact_for_tier, score_fingerprint,
}

-- A list whose items rise by a rank.
module _ {A : Type 0} (rank : A → ℕ) where
  abbrev pub Rises : List A → Type 0
  Rises [] = Unit
  Rises (x ∷ xs) = ((a : A) → Memᴰ a xs → rank x ≤ rank a) × Rises xs

  module _ (goes_before : A → A → Bool)
      (rises : (a b : A) → goes_before a b ≡ true → rank a ≤ rank b)
      (falls : (a b : A) → goes_before a b ≡ false → rank b ≤ rank a) where
    insert-Rises : (a : A) (xs : List A) → Rises xs → Rises (insert_sorted goes_before a xs)
    unfolding insert_sorted
    insert-Rises a [] h = ((λ b m. elim m [ ]), tt)
    insert-Rises a (x ∷ xs) (least, rest) = elim (Bool-cases (goes_before x a)) [
      | inl first ↦ rw first (
        (λ b m. elim (mem_insert→ goes_before a xs m) [
          | inl q ↦ rw q (rises x a first)
          | inr later ↦ least b later
        ]),
        insert-Rises a xs rest,
      )
      | inr last ↦ rw last ((λ b m. above a x b xs (falls x a last) least m), (least, rest))
    ]
      where
        above :
            (a x b : A) (xs : List A)
            → rank a ≤ rank x
            → ((c : A) → Memᴰ c xs → rank x ≤ rank c)
            → Memᴰ b (x ∷ xs)
            → rank a ≤ rank b
        above a x b xs low least (Memᴰ.head q) = rw q low
        above a x b xs low least (Memᴰ.tail m) = omega (arith, low, least b m)

    sort-Rises : (xs : List A) → Rises (sort goes_before xs)
    unfolding sort
    sort-Rises [] = tt
    sort-Rises (x ∷ xs) = insert-Rises x (sort goes_before xs) (sort-Rises xs)

  mem_drop→ : {b : A} (n : ℕ) (xs : List A) → Memᴰ b (drop n xs) → Memᴰ b xs
  mem_drop→ zero xs m = m
  mem_drop→ (suc n) [] m = m
  mem_drop→ (suc n) (x ∷ xs) m = Memᴰ.tail (mem_drop→ n xs m)

  take-drop-Rises :
      (n : ℕ) (xs : List A) (a b : A)
      → Rises xs
      → Memᴰ a (take n xs)
      → Memᴰ b (drop n xs)
      → rank a ≤ rank b
  take-drop-Rises zero xs a b h m k = elim m [ ]
  take-drop-Rises (suc n) [] a b h m k = elim m [ ]
  take-drop-Rises (suc n) (x ∷ xs) a b (least, rest) (Memᴰ.head q) k =
      rw q (least b (mem_drop→ n xs k))
  take-drop-Rises (suc n) (x ∷ xs) a b (least, rest) (Memᴰ.tail m) k =
      take-drop-Rises n xs a b rest m k

take_or_drop :
    {A : Type 0} {a : A} (n : ℕ) (xs : List A) → Memᴰ a xs → Memᴰ a (take n xs) ⊎ Memᴰ a (drop n xs)
take_or_drop zero xs m = inr m
take_or_drop (suc n) [] m = elim m [ ]
take_or_drop (suc n) (x ∷ xs) (Memᴰ.head q) = inl (Memᴰ.head q)
take_or_drop (suc n) (x ∷ xs) (Memᴰ.tail m) = elim (take_or_drop n xs m) [
  | inl k ↦ inl (Memᴰ.tail k)
  | inr k ↦ inr k
]

length-take :
    {A : Type 0} (n : ℕ) (xs : List A) → (length (take n xs) ≤ n) × (length (take n xs) ≤ length xs)
length-take zero xs = (omega arith, omega arith)
length-take (suc n) [] = (omega arith, omega arith)
length-take (suc n) (x ∷ xs) = let (a, b) = length-take n xs in (omega (arith, a), omega (arith, b))

-- A finding with another remediation and other evidence.
abbrev pub paid_changed :
    (ReportFinding → String) → (ReportFinding → List Evidence) → ReportFinding → ReportFinding
paid_changed remediation evidence f = record f {
  remediation = remediation f;
  evidence = evidence f;
}

hidden-same :
    (remediation : ReportFinding → String) (evidence : ReportFinding → List Evidence)
    (fs : List ReportFinding)
    → map free_tier_finding (map (paid_changed remediation evidence) fs) ≡ map free_tier_finding fs
hidden-same remediation evidence [] = refl
hidden-same remediation evidence (f ∷ fs) =
    ap (λ (gs : List ReportFinding). free_tier_finding f ∷ gs) (hidden-same remediation evidence fs)

module _ (locale_compare : String → String → Sign) where
  abbrev rank_of : ReportFinding → ℕ
  rank_of f = severity_rank f.severity

  worse_first :
      (a b : ReportFinding)
      → comes_before locale_compare a b ≡ true
      → severity_rank a.severity ≤ severity_rank b.severity
  worse_first a b h = by_minus (severity_rank a.severity) (severity_rank b.severity) _ h
    where
      by_minus : (m n : ℕ) (s : Sign) → is_before (or_then (minus m n) s) ≡ true → m ≤ n
      by_minus m n s h = ground (arith, h)

  milder_last :
      (a b : ReportFinding)
      → comes_before locale_compare a b ≡ false
      → severity_rank b.severity ≤ severity_rank a.severity
  milder_last a b h = by_minus (severity_rank a.severity) (severity_rank b.severity) _ h
    where
      by_minus : (m n : ℕ) (s : Sign) → is_before (or_then (minus m n) s) ≡ false → n ≤ m
      by_minus m n s h = ground (arith, h)

  -- A free report shows at most three findings and says how many it hides; each finding of the
  -- assessment is among those shown, or is no more serious than any of them; and the score, the band,
  -- the dimensions and whether the application may be certified are those of the paid report.
  pub free_report_shows_the_worst :
      {Rest : Type 0} (source : ReportSource Rest)
      → let report = redact_for_tier locale_compare source free in
        (length report.findings ≤ 3)
        × (length report.findings + report.hidden_finding_count
            ≡ length (redact_for_tier locale_compare source paid).findings)
        × ((g : ReportFinding)
            → Memᴰ g source.findings
            → Memᴰ (free_tier_finding g) report.findings
              ⊎ ((f : ReportFinding)
                  → Memᴰ f report.findings
                  → severity_rank f.severity ≤ severity_rank g.severity))
        × (score_fingerprint report.source
            ≡ score_fingerprint (redact_for_tier locale_compare source paid).source)
  unfolding redact_for_tier
  free_report_shows_the_worst source =
      let sorted = sort_findings locale_compare source.findings in
      let (three, short) = length-take 3 sorted in
      let many = length-map free_tier_finding (take 3 sorted) in
      (
        rw many three,
        rw many (omega (arith, short)),
        λ g m. elim (take_or_drop 3 sorted (mem_sort← (comes_before locale_compare) m)) [
          | inl shown ↦ inl (mem_map← free_tier_finding shown)
          | inr hidden ↦ inr (λ f n.
              let (e, there, made) = mem_map→ free_tier_finding (take 3 sorted) n in
              rw made (
                take-drop-Rises rank_of 3 sorted e g
                  (sort-Rises rank_of (comes_before locale_compare) worse_first milder_last
                    source.findings)
                  there hidden))
        ],
        refl,
      )

  -- A change to what is paid for, the remediation and the evidence of any finding, changes nothing in
  -- a free report: it shows the same, whatever they are.
  pub free_report_ignores_the_paid :
      {Rest : Type 0} (source : ReportSource Rest) (remediation : ReportFinding → String)
      (evidence : ReportFinding → List Evidence)
      → redact_for_tier locale_compare
          (record source { findings = map (paid_changed remediation evidence) source.findings })
          free
        ≡ redact_for_tier locale_compare source free
  unfolding redact_for_tier
  free_report_ignores_the_paid source remediation evidence =
      let before = comes_before locale_compare in
      let found = source.findings in
      let shown = paid_changed remediation evidence in
      rw
        (
          sort-map shown before (λ a b. refl) found,
          take-map shown 3 (sort before found),
          length-map shown (sort before found),
          length-map shown (take 3 (sort before found)),
          hidden-same remediation evidence (take 3 (sort before found)),
        )
        refl
