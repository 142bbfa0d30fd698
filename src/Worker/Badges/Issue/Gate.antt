-- ===== src/Worker/Badges/Issue/Gate.antt =====
-- What holds of every badge that the sweep issues (apps/worker/src/badge.ts).
use vibefy.Prelude.{
  ℕ, ◌+◌, ◌≤◌, ◌<◌, String, Bool, Option, none, some, List, [], ◌∷◌, Result, ok, err, ◌≡◌, ◌⊎◌,
  refl, sym, inl, inr, Memᴰ, mem_append→, mem_append_left,
}
use vibefy.Badge.Sign.{SigningKey}
use vibefy.Worker.Badges.Types.{BadgeRow, Tables, IssuanceCandidate}
use vibefy.Worker.Badges.Candidates.{find_issuance_candidates}
use vibefy.Worker.Badges.Candidates.Earned.{IsEarned, candidates-IsEarned}
use vibefy.Worker.Badges.Issue.{
  Platform, Rules, Fresh, IssueError, issue_badge_for, attempted, issue_all, sweep_badge_issuance,
}
use vibefy.Worker.Badges.Issue.Inserted.{IsIssued, issue_badge_for-ok}

module _ (platform : Platform) (rules : Rules) (key : SigningKey platform.crypto) where
  -- A badge of one of these candidates.
  abbrev pub IsOf : List IssuanceCandidate → BadgeRow → Type 0
  IsOf cs b = (c : IssuanceCandidate) × Memᴰ c cs × (now : ℕ) × IsIssued platform rules key c now b

  attempted-badges :
      (c : IssuanceCandidate) (fresh : Fresh) (now : ℕ) (tables : Tables) (b : BadgeRow)
      (r : Result IssueError (Tables × BadgeRow))
      → issue_badge_for platform rules key c fresh now tables ≡ r
      → (Memᴰ b (attempted platform rules key tables r).0.badges
          → Memᴰ b tables.badges ⊎ IsIssued platform rules key c now b)
        × (Memᴰ b (attempted platform rules key tables r).1 → IsIssued platform rules key c now b)
  attempted-badges c fresh now tables b (err e) h = (λ m. inl m, λ m. elim m [ ])
  attempted-badges c fresh now tables b (ok (after, row)) h =
      let (made, grown) = issue_badge_for-ok platform rules key c fresh now tables after row h in
      (
        λ m. elim (mem_append→ tables.badges (rw grown at m)) [
          | inl before ↦ inl before
          | inr new ↦ inr (rw (← the_one row new) made)
        ],
        λ m. rw (← the_one row m) made,
      )
    where
      the_one : {b : BadgeRow} (row : BadgeRow) → Memᴰ b (row ∷ []) → row ≡ b
      the_one row (Memᴰ.head q) = sym q
      the_one row (Memᴰ.tail m) = elim m [ ]

  weaken :
      {b : BadgeRow} (c : IssuanceCandidate) (cs : List IssuanceCandidate)
      → IsOf cs b
      → IsOf (c ∷ cs) b
  weaken c cs (d, m, now, made) = (d, Memᴰ.tail m, now, made)

  pub issue_all-badges :
      (fresh : ℕ → Fresh) (moment : ℕ → ℕ) (n : ℕ) (cs : List IssuanceCandidate) (tables : Tables)
      (b : BadgeRow)
      → (Memᴰ b (issue_all platform rules key fresh moment n cs tables).0.badges
          → Memᴰ b tables.badges ⊎ IsOf cs b)
        × (Memᴰ b (issue_all platform rules key fresh moment n cs tables).1 → IsOf cs b)
  unfolding issue_all
  issue_all-badges fresh moment n [] tables b = (λ m. inl m, λ m. elim m [ ])
  issue_all-badges fresh moment n (c ∷ cs) tables b =
      let attempt = issue_badge_for platform rules key c (fresh n) (moment n) tables in
      let (one, got) = attempted-badges c (fresh n) (moment n) tables b attempt refl in
      let (rest, more) =
        issue_all-badges fresh moment (n + 1) cs (attempted platform rules key tables attempt).0
          b in
      (
        λ m. elim (rest m) [
          | inr later ↦ inr (weaken c cs later)
          | inl now ↦ elim (one now) [
            | inl before ↦ inl before
            | inr made ↦ inr (c, Memᴰ.head refl, moment n, made)
          ]
        ],
        λ m. elim (mem_append→ (attempted platform rules key tables attempt).1 m) [
          | inl here ↦ (c, Memᴰ.head refl, moment n, got here)
          | inr later ↦ weaken c cs (more later)
        ],
      )

module _ (platform : Platform) (rules : Rules) where
  attempted-keeps :
      (key : SigningKey platform.crypto) (c : IssuanceCandidate) (fresh : Fresh) (now : ℕ)
      (tables : Tables) (b : BadgeRow) (r : Result IssueError (Tables × BadgeRow))
      → issue_badge_for platform rules key c fresh now tables ≡ r
      → Memᴰ b tables.badges
      → Memᴰ b (attempted platform rules key tables r).0.badges
  attempted-keeps key c fresh now tables b (err e) h m = m
  attempted-keeps key c fresh now tables b (ok (after, row)) h m =
      let (_, grown) = issue_badge_for-ok platform rules key c fresh now tables after row h in
      rw grown (mem_append_left (row ∷ []) m)

  issue_all-keeps :
      (key : SigningKey platform.crypto) (fresh : ℕ → Fresh) (moment : ℕ → ℕ) (n : ℕ)
      (cs : List IssuanceCandidate) (tables : Tables) (b : BadgeRow)
      → Memᴰ b tables.badges
      → Memᴰ b (issue_all platform rules key fresh moment n cs tables).0.badges
  unfolding issue_all
  issue_all-keeps key fresh moment n [] tables b m = m
  issue_all-keeps key fresh moment n (c ∷ cs) tables b m =
      issue_all-keeps key fresh moment (n + 1) cs _ b
        (attempted-keeps key c (fresh n) (moment n) tables b _ refl m)

  pub sweep-keeps :
      (is_authorised : String → Bool) (licence : String) (key : Option (SigningKey platform.crypto))
      (fresh : ℕ → Fresh) (moment : ℕ → ℕ) (tables : Tables) (b : BadgeRow)
      → Memᴰ b tables.badges
      → Memᴰ b
          (sweep_badge_issuance platform rules is_authorised licence key fresh moment
            tables).0.badges
  unfolding sweep_badge_issuance
  sweep-keeps is_authorised licence none fresh moment tables b m = m
  sweep-keeps is_authorised licence (some key) fresh moment tables b m =
      issue_all-keeps key fresh moment 0 (find_issuance_candidates is_authorised licence tables 20)
        tables b m

-- Every badge that stands in the table after the sweep and not before was earned: a person approved
-- the assessment, the rubric's gate let it pass, the application is still authorised, the owner
-- accepted the licence in force, a plan that is not free pays for it or there is no subscription at
-- all, and no other badge stood for the application; and it ends a number of months after it was
-- issued that is above zero and not above what its rubric publishes.
pub sweep-IsEarned :
    (platform : Platform) (rules : Rules) (is_authorised : String → Bool) (licence : String)
    (key : Option (SigningKey platform.crypto)) (fresh : ℕ → Fresh) (moment : ℕ → ℕ)
    (tables : Tables) (b : BadgeRow)
    → Memᴰ b
        (sweep_badge_issuance platform rules is_authorised licence key fresh moment tables).0.badges
    → Memᴰ b tables.badges
      ⊎ (IsEarned is_authorised licence tables b.assessment_id b.app_id b.organisation_id
            b.licence_consent_id
          × (months : ℕ) × (maximum : ℕ) × (b.expires_at ≡ platform.add_months b.issued_at months)
          × (rules.published_maximum b.rubric_version ≡ some maximum)
          × (0 < months)
          × (months ≤ maximum))
unfolding sweep_badge_issuance
sweep-IsEarned platform rules is_authorised licence none fresh moment tables b m = inl m
sweep-IsEarned platform rules is_authorised licence (some key) fresh moment tables b m =
    elim ((issue_all-badges platform rules key fresh moment 0
        (find_issuance_candidates is_authorised licence tables 20) tables b).0
      m) [
        | inl before ↦ inl before
        | inr
              (
                c,
                listed,
                now,
                (_, _, months, _, (_, maximum, published, above, within), _, _, made),
              ) ↦
            inr (
              rw made (
                candidates-IsEarned is_authorised licence tables 20 c listed,
                months,
                maximum,
                refl,
                published,
                above,
                within,
              ))
      ]
