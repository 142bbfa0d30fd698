-- ===== src/Governance/Triage/Straightforward.antt =====
-- When a reviewer is told that an assessment is straightforward (packages/governance/src/triage.ts).
use vibefy.Prelude.{
  ◌*◌, ℕ, suc, ◌≤◌, ◌<◌, String, Bool, true, false, ◌&&◌, Option, none, some, List, [], ◌∷◌, ◌++◌,
  filter, length, ltb, lt→ltb, if◌then◌else◌, ◌≡◌, ◌↔◌, refl, inl, inr, Bool-cases, Memᴰ,
  mem_filter→, mem_filter←, arith,
}
use vibefy.Prelude.Double.{one, distance}
use vibefy.Governance.Triage.{
  critical, TriageFinding, TriageInput, Attention, Suggestion, straightforward, has_severity,
  lacks_evidence, is_doubtful, is_serious, raise_if, or_none, is_near, near, has_moved, moved,
  is_some, published_of, attention_of, triage_assessment,
}

append-nil_iff {ℓ} : {A : Type ℓ} (xs ys : List A) → (xs ++ ys ≡ []) ↔ ((xs ≡ []) × (ys ≡ []))
append-nil_iff [] ys = (λ h. (refl, h), λ (_, h). h)
append-nil_iff (x ∷ xs) ys = (λ h. cc h, λ (h, _). cc h)

raise_if-nil : (b : Bool) (a : Attention) → (raise_if b a ≡ []) ↔ (b ≡ false)
raise_if-nil true a = (λ h. cc h, λ h. cc h)
raise_if-nil false a = (λ h. refl, λ h. refl)

-- No published finding is of a kind.
abbrev pub NonePublished : (TriageFinding → Bool) → TriageInput → Type 0
NonePublished kind input =
    (f : TriageFinding) → Memᴰ f input.findings → f.is_published ≡ true → kind f ≡ false

empty_of_some : (ys : List TriageFinding) (f : TriageFinding) → is_some ys ≡ false → Memᴰ f ys → ⊥
empty_of_some [] f h m = elim m [ ]
empty_of_some (y ∷ ys) f h m = cc h

some_of : (ys : List TriageFinding) → is_some ys ≡ true → (f : TriageFinding) × Memᴰ f ys
some_of [] h = cc h
some_of (y ∷ ys) h = (y, Memᴰ.head refl)

none-published :
    (kind : TriageFinding → Bool) (input : TriageInput)
    → (is_some (filter kind (published_of input)) ≡ false) ↔ NonePublished kind input
none-published kind input = (
  λ h f m public. elim (Bool-cases (kind f)) [
    | inr other ↦ other
    | inl holds ↦ absurd (
        empty_of_some (filter kind (published_of input)) f h
          (mem_filter← kind (mem_filter← (λ (x : TriageFinding). x.is_published) m public) holds))
  ],
  λ clear. elim (Bool-cases (is_some (filter kind (published_of input)))) [
    | inr nothing ↦ nothing
    | inl something ↦
        let (f, m) = some_of (filter kind (published_of input)) something in
        let (n, holds) = mem_filter→ kind (published_of input) m in
        let (there, public) =
          mem_filter→ (λ (x : TriageFinding). x.is_published) input.findings n in
        cc (holds, clear f there public)
  ],
)

-- The score is not within four points of the certification line.
abbrev pub IsApart : Option ℕ → Type 0
IsApart score = (s : ℕ) → score ≡ some s → 4 * one < distance s (70 * one)

-- The score is less than eight points from the last one.
abbrev pub IsSteady : Option ℕ → Option ℕ → Type 0
IsSteady score previous = (s p : ℕ) → score ≡ some s → previous ≡ some p → distance s p < 8 * one

near-nil : (score : Option ℕ) → (near score ≡ []) ↔ IsApart score
near-nil none = (λ h s e. cc e, λ h. refl)
near-nil (some n) = (
  λ h s e. ground (arith, (raise_if-nil (is_near n) (Attention.near_threshold n)).0 h, e),
  λ h. (raise_if-nil (is_near n) (Attention.near_threshold n)).1 (ground (arith, h n refl)),
)

moved-nil : (score previous : Option ℕ) → (moved score previous ≡ []) ↔ IsSteady score previous
moved-nil none previous = (λ h s p e. cc e, λ h. refl)
moved-nil (some n) none = (λ h s p e f. cc f, λ h. refl)
moved-nil (some n) (some m) = (
  λ h s p e f. ground (arith, (raise_if-nil (has_moved n m) (Attention.large_move m n)).0 h, e, f),
  λ h.
      (raise_if-nil (has_moved n m) (Attention.large_move m n)).1 (ground (arith, h n m refl refl)),
)

all_nil :
    (a b c d e f g h : List Attention)
    → (a ++ (b ++ (c ++ (d ++ (e ++ (f ++ (g ++ h)))))) ≡ [])
      ↔ ((a ≡ []) × (b ≡ []) × (c ≡ []) × (d ≡ []) × (e ≡ []) × (f ≡ []) × (g ≡ []) × (h ≡ []))
all_nil a b c d e f g h = (
  λ q.
      let (qa, q1) = (append-nil_iff a _).0 q in
      let (qb, q2) = (append-nil_iff b _).0 q1 in
      let (qc, q3) = (append-nil_iff c _).0 q2 in
      let (qd, q4) = (append-nil_iff d _).0 q3 in
      let (qe, q5) = (append-nil_iff e _).0 q4 in
      let (qf, q6) = (append-nil_iff f _).0 q5 in
      let (qg, qh) = (append-nil_iff g h).0 q6 in (qa, qb, qc, qd, qe, qf, qg, qh),
  λ (qa, qb, qc, qd, qe, qf, qg, qh). rw (qa, qb, qc, qd, qe, qf, qg, qh) refl,
)

-- An assessment with nothing to raise.
abbrev pub IsOrdinary : TriageInput → Type 0
IsOrdinary input =
    NonePublished lacks_evidence input
    × (or_none input.failed_stages ≡ [])
    × (3 ≤ length (published_of input))
    × NonePublished (has_severity critical) input
    × NonePublished is_doubtful input
    × (input.certification_eligible ≡ true → NonePublished is_serious input)
    × IsApart input.overall_score
    × IsSteady input.overall_score input.previous_score

failed-nil : (xs : List String) → (is_some xs ≡ false) ↔ (xs ≡ [])
failed-nil [] = (λ h. refl, λ h. refl)
failed-nil (x ∷ xs) = (λ h. cc h, λ h. cc h)

eligible-nil :
    (eligible : Bool) (input : TriageInput)
    → ((eligible && is_some (filter is_serious (published_of input))) ≡ false)
      ↔ (eligible ≡ true → NonePublished is_serious input)
eligible-nil false input = (λ h e. cc e, λ h. refl)
eligible-nil true input = (
  λ h e. (none-published is_serious input).0 h,
  λ h. (none-published is_serious input).1 (h refl),
)

attention-nil : (input : TriageInput) → (attention_of input ≡ []) ↔ IsOrdinary input
unfolding attention_of
attention-nil input = (
  λ h.
      let (a, b, c, d, e, f, g, k) = (all_nil _ _ _ _ _ _ _ _).0 h in
      (
        (none-published lacks_evidence input).0 ((raise_if-nil _ _).0 a),
        (failed-nil (or_none input.failed_stages)).0 ((raise_if-nil _ _).0 b),
        at_least_three (length (published_of input)) ((raise_if-nil _ _).0 c),
        (none-published (has_severity critical) input).0 ((raise_if-nil _ _).0 d),
        (none-published is_doubtful input).0 ((raise_if-nil _ _).0 e),
        (eligible-nil input.certification_eligible input).0 ((raise_if-nil _ _).0 f),
        (near-nil input.overall_score).0 g,
        (moved-nil input.overall_score input.previous_score).0 k,
      ),
  λ (a, b, c, d, e, f, g, k). (all_nil _ _ _ _ _ _ _ _).1 (
    (raise_if-nil _ _).1 ((none-published lacks_evidence input).1 a),
    (raise_if-nil _ _).1 ((failed-nil (or_none input.failed_stages)).1 b),
    (raise_if-nil _ _).1 (not_below_three (length (published_of input)) c),
    (raise_if-nil _ _).1 ((none-published (has_severity critical) input).1 d),
    (raise_if-nil _ _).1 ((none-published is_doubtful input).1 e),
    (raise_if-nil _ _).1 ((eligible-nil input.certification_eligible input).1 f),
    (near-nil input.overall_score).1 g,
    (moved-nil input.overall_score input.previous_score).1 k,
  ),
)
  where
    at_least_three : (n : ℕ) → ltb n 3 ≡ false → 3 ≤ n
    at_least_three n h = ground (arith, h)

    not_below_three : (n : ℕ) → 3 ≤ n → ltb n 3 ≡ false
    not_below_three n h = ground (arith, h)

-- An assessment is called straightforward exactly where there is no reason to look closer: every
-- stage completed, at least three findings are published, each with evidence, none critical and none
-- of low confidence, none high against security or privacy where the badge is at stake, the score is
-- more than four points from the certification line, and less than eight from the last one, as the
-- language rounds the difference of two doubles. Nothing found at all is a reason to look.
pub straightforward_iff :
    (input : TriageInput)
    → ((triage_assessment input).suggestion ≡ straightforward) ↔ IsOrdinary input
unfolding triage_assessment
straightforward_iff input = (
  λ h. (attention-nil input).0 (nothing_raised (attention_of input) h),
  λ h. rw ((attention-nil input).1 h) refl,
)
  where
    above : (n : ℕ) → ltb 0 (suc n) ≡ true
    above n = lt→ltb 0 (suc n) (omega arith)

    nothing_raised :
        (xs : List Attention)
        → (if ltb 0 (length xs) then Suggestion.read_closely else straightforward) ≡ straightforward
        → xs ≡ []
    nothing_raised [] h = refl
    nothing_raised (x ∷ xs) h = cc (h, above (length xs))
