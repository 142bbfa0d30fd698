-- ===== src/Worker/Badges/Issue/Inserted.antt =====
-- What the issuing of a badge inserts (apps/worker/src/badge.ts).
use vibefy.Prelude.{
  ℕ, ◌≤◌, ◌<◌, String, not, Option, none, some, [], ◌∷◌, ◌++◌, any, text_eq, Result, ok, err,
  >>=-eq-ok, throw_if, ◌≡◌, sym, ap, ◌∙◌, arith,
}
use vibefy.Prelude.Text.{Text}
use vibefy.Prelude.Dict.{lookup}
use vibefy.Badge.Sign.{SigningKey, SignedBadge, SignError, sign_badge}
use vibefy.Worker.Badges.Types.{BadgeRow, Tables, IssuanceCandidate}
use vibefy.Worker.Badges.Candidates.{stands_for}
use vibefy.Worker.Badges.Issue.{
  validity_months, Platform, Rules, Fresh, IssueError, term_within_published, validity_months_for,
  positive_or_throw, or_throw, signed_or_throw, payload_of, badge_row, insert_badge,
  start_monitoring, issue_badge_for,
}

-- The term of a plan is above zero, and no longer than the rubric publishes.
abbrev pub IsTerm : Rules → String → Text → ℕ → Type 0
IsTerm rules plan rubric_version months =
    (lookup plan validity_months ≡ some months)
    × (maximum : ℕ) × (rules.published_maximum rubric_version ≡ some maximum)
    × (0 < months)
    × (months ≤ maximum)

or_throw-ok :
    {A : Type 0} {a : A} (e : IssueError) (o : Option A) → or_throw e o ≡ ok a → o ≡ some a
or_throw-ok e none h = cc h
or_throw-ok e (some a) h = cc h

positive-ok :
    (plan : String) (o : Option ℕ) (m : ℕ)
    → positive_or_throw plan o ≡ ok m
    → (o ≡ some m) × (0 < m)
positive-ok plan none m h = cc h
positive-ok plan (some n) m h = ground (arith, h)

term-ok :
    (plan : String) (months maximum : ℕ) (version : Text) (m : ℕ)
    → term_within_published plan months maximum version ≡ ok m
    → (m ≡ months) × (months ≤ maximum)
unfolding term_within_published
term-ok plan months maximum version m h = ground (arith, h)

validity-ok :
    (rules : Rules) (plan : String) (version : Text) (m : ℕ)
    → validity_months_for rules plan version ≡ ok m
    → IsTerm rules plan version m
unfolding validity_months_for
validity-ok rules plan version m h =
    let (months, e1, h1) = >>=-eq-ok (positive_or_throw plan (lookup plan validity_months)) _ h in
    let (maximum, e2, h2) =
      >>=-eq-ok (or_throw (IssueError.no_rubric version) (rules.published_maximum version)) _ h1 in
    let (known, above) = positive-ok plan (lookup plan validity_months) months e1 in
    let (same, within) = term-ok plan months maximum version m h2 in
    rw same (
      known,
      maximum,
      or_throw-ok (IssueError.no_rubric version) (rules.published_maximum version) e2,
      above,
      within,
    )

signed-ok :
    (m : Result SignError SignedBadge) {b : SignedBadge} → signed_or_throw m ≡ ok b → m ≡ ok b
signed-ok (err e) h = cc h
signed-ok (ok b) h = cc h

module _ (platform : Platform) (rules : Rules) (key : SigningKey platform.crypto) where
  insert-ok :
      (row : BadgeRow) (tables after : Tables)
      → insert_badge platform rules key row tables ≡ ok after
      → after.badges ≡ tables.badges ++ row ∷ []
  unfolding insert_badge
  insert-ok row tables after h =
      let (_, _, h1) = >>=-eq-ok (throw_if (not (rules.accepts row)) IssueError.refused_row) _ h in
      let (_, _, h2) =
        >>=-eq-ok (throw_if (any (stands_for row.app_id) tables.badges) IssueError.already_stands) _
          h1 in
      ap (λ (r : Result IssueError Tables). (elim r [ ok t ↦ t.badges | err e ↦ after.badges ]))
        (sym h2)

  start_monitoring-badges :
      (c : IssuanceCandidate) (tables : Tables)
      → (start_monitoring platform rules key c tables).badges ≡ tables.badges
  start_monitoring-badges c tables = ground arith

  -- How a badge came to be inserted.
  abbrev pub IsIssued : IssuanceCandidate → ℕ → BadgeRow → Type 0
  IsIssued c now row =
      (fresh : Fresh) × (origin : Text) × (months : ℕ) × (signed : SignedBadge) × IsTerm rules
        c.plan c.rubric_version months
      × (platform.origin c.primary_url ≡ some origin)
      × (sign_badge platform.crypto platform.date
            (payload_of platform rules key c fresh origin now (platform.add_months now months)) key
          ≡ ok signed)
      × (row ≡ badge_row platform rules key c signed now (platform.add_months now months))

  pub issue_badge_for-ok :
      (c : IssuanceCandidate) (fresh : Fresh) (now : ℕ) (tables after : Tables) (row : BadgeRow)
      → issue_badge_for platform rules key c fresh now tables ≡ ok (after, row)
      → IsIssued c now row × (after.badges ≡ tables.badges ++ row ∷ [])
  unfolding issue_badge_for
  issue_badge_for-ok c fresh now tables after row h =
      let (months, e1, h1) = >>=-eq-ok (validity_months_for rules c.plan c.rubric_version) _ h in
      let (origin, e2, h2) =
        >>=-eq-ok (or_throw (IssueError.bad_origin c.primary_url) (platform.origin c.primary_url)) _
          h1 in
      let expires = platform.add_months now months in
      let attempt =
        sign_badge platform.crypto platform.date
          (payload_of platform rules key c fresh origin now expires) key in
      let (signed, e3, h3) = >>=-eq-ok (signed_or_throw attempt) _ h2 in
      let made = badge_row platform rules key c signed now expires in
      let (middle, e4, h4) = >>=-eq-ok (insert_badge platform rules key made tables) _ h3 in
      let same : made ≡ row = cc h4 in
      let last : start_monitoring platform rules key c middle ≡ after = cc h4 in
      (
        (
          fresh,
          origin,
          months,
          signed,
          validity-ok rules c.plan c.rubric_version months e1,
          or_throw-ok (IssueError.bad_origin c.primary_url) (platform.origin c.primary_url) e2,
          signed-ok attempt e3,
          sym same,
        ),
        ap (λ (t : Tables). t.badges) (sym last)
            ∙ start_monitoring-badges c middle
            ∙ insert-ok made tables middle e4
            ∙ ap (λ (r : BadgeRow). tables.badges ++ r ∷ []) same,
      )
