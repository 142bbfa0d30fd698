-- ===== src/Badge/Payload/RoundTrip.antt =====
-- The text that is signed, read back (packages/badge/src/payload.ts).
use native.Mathlib.Omega.{arith}
use vibefy.Prelude.{
  ℕ, ◌*◌, ◌/◌, ◌≤◌, Bool, Option, none, some, [], ◌∷◌, ◌++◌, ok, >>=-eq-ok, ◌≡◌, ap, ◌∙◌,
}
use vibefy.Prelude.Text.{Text, codes, expect, expect-append}
use vibefy.Prelude.Double.{one, to_tenths, to_tenths-le}
use vibefy.Badge.Json.{
  quoted, number, boolean, read_text, read_text-quoted, read_number, read_number-number,
  read_boolean, read_boolean-boolean,
}
use vibefy.Badge.Payload.{
  BadgePayload, RawPayload, Dates, checked, serialised, canonicalise, raw_of,
}

infixl 5 ◌>>=◌
abbrev ◌>>=◌ : {A B : Type 0} → Option A → (A → Option B) → Option B
◌>>=◌ none f = none
◌>>=◌ (some a) f = f a

field : {A : Type 0} → Text → (Text → Option (A × Text)) → Text → Option (A × Text)
field name reader s = expect name s >>= reader

abbrev some_number : Text → Option (ℕ × Text)
some_number s = some (read_number s)

-- A reader of signed texts, which knows their form and nothing of how they are made. The score that
-- it reads is in tenths.
pub read_payload : Text → Option BadgePayload
read_payload s0 = do
  v ← field (codes "{\"v\":") some_number s0
  kid ← field (codes ",\"kid\":") read_text v.1
  badge_id ← field (codes ",\"badgeId\":") read_text kid.1
  slug ← field (codes ",\"slug\":") read_text badge_id.1
  app_name ← field (codes ",\"appName\":") read_text slug.1
  origin ← field (codes ",\"certifiedOrigin\":") read_text app_name.1
  rubric ← field (codes ",\"rubricVersion\":") read_text origin.1
  score ← field (codes ",\"score\":") some_number rubric.1
  assessed ← field (codes ",\"assessedOn\":") read_text score.1
  issued ← field (codes ",\"issuedAt\":") read_text assessed.1
  expires ← field (codes ",\"expiresAt\":") read_text issued.1
  client ← field (codes ",\"ownerIsMarketingClient\":") read_boolean expires.1
  end ← expect (codes "}") client.1
  some (record {
    v = v.0 / 10;
    kid = kid.0;
    badge_id = badge_id.0;
    slug = slug.0;
    app_name = app_name.0;
    certified_origin = origin.0;
    rubric_version = rubric.0;
    score = score.0;
    assessed_on = assessed.0;
    issued_at = issued.0;
    expires_at = expires.0;
    owner_is_marketing_client = client.0;
  })

field-text : (name s rest : Text) → field name read_text (name ++ quoted s rest) ≡ some (s, rest)
unfolding field
field-text name s rest = rw (expect-append name (quoted s rest)) (read_text-quoted s rest)

field-number :
    (name : Text) (n : ℕ) (rest : Text)
    → n ≤ 1000
    → field name some_number (name ++ (number n ++ b',' ∷ rest)) ≡ some (n, b',' ∷ rest)
unfolding field
field-number name n rest h =
    rw (expect-append name (number n ++ b',' ∷ rest)) (ap some (read_number-number n rest h))

pub checked-raw_of :
    (date : Dates) (p : BadgePayload) {q : BadgePayload} → checked date (raw_of p) ≡ ok q → q ≡ p
unfolding checked
checked-raw_of date p h = ground arith

checked-ok :
    (date : Dates) (raw : RawPayload) {p : BadgePayload}
    → checked date raw ≡ ok p
    → (p.v ≡ 1) × (p.score ≤ 100 * one)
unfolding checked
checked-ok date raw h = ground arith

field-boolean :
    (name : Text) (b : Bool) (rest : Text)
    → field name read_boolean (name ++ (boolean b ++ rest)) ≡ some (b, rest)
unfolding field
field-boolean name b rest =
    rw (expect-append name (boolean b ++ rest)) (read_boolean-boolean b rest)

-- What a text says of a payload: its score in tenths, and every other field as it is.
abbrev pub as_signed : BadgePayload → BadgePayload
as_signed p = record p { score = to_tenths p.score }

module _ (p : BadgePayload) where
  abbrev from_client : Text
  from_client =
      codes ",\"ownerIsMarketingClient\":" ++ (boolean p.owner_is_marketing_client ++ codes "}")

  abbrev from_expires : Text
  from_expires = codes ",\"expiresAt\":" ++ quoted p.expires_at from_client

  abbrev from_issued : Text
  from_issued = codes ",\"issuedAt\":" ++ quoted p.issued_at from_expires

  abbrev from_assessed : Text
  from_assessed = codes ",\"assessedOn\":" ++ quoted p.assessed_on from_issued

  abbrev from_score : Text
  from_score = codes ",\"score\":" ++ (number (to_tenths p.score) ++ from_assessed)

  abbrev from_rubric : Text
  from_rubric = codes ",\"rubricVersion\":" ++ quoted p.rubric_version from_score

  abbrev from_origin : Text
  from_origin = codes ",\"certifiedOrigin\":" ++ quoted p.certified_origin from_rubric

  abbrev from_app : Text
  from_app = codes ",\"appName\":" ++ quoted p.app_name from_origin

  abbrev from_slug : Text
  from_slug = codes ",\"slug\":" ++ quoted p.slug from_app

  abbrev from_badge : Text
  from_badge = codes ",\"badgeId\":" ++ quoted p.badge_id from_slug

  abbrev from_kid : Text
  from_kid = codes ",\"kid\":" ++ quoted p.kid from_badge

  read-serialised :
      p.v ≤ 100 → p.score ≤ 100 * one → read_payload (serialised p) ≡ some (as_signed p)
  unfolding read_payload serialised
  read-serialised hv hs =
      rw
        (
          field-number (codes "{\"v\":") (10 * p.v) (codes "\"kid\":" ++ quoted p.kid from_badge)
              (omega (arith, hv)),
          field-text (codes ",\"kid\":") p.kid from_badge,
          field-text (codes ",\"badgeId\":") p.badge_id from_slug,
          field-text (codes ",\"slug\":") p.slug from_app,
          field-text (codes ",\"appName\":") p.app_name from_origin,
          field-text (codes ",\"certifiedOrigin\":") p.certified_origin from_rubric,
          field-text (codes ",\"rubricVersion\":") p.rubric_version from_score,
          field-number (codes ",\"score\":") (to_tenths p.score)
              (codes "\"assessedOn\":" ++ quoted p.assessed_on from_issued)
              (to_tenths-le p.score hs),
          field-text (codes ",\"assessedOn\":") p.assessed_on from_issued,
          field-text (codes ",\"issuedAt\":") p.issued_at from_expires,
          field-text (codes ",\"expiresAt\":") p.expires_at from_client,
          field-boolean (codes ",\"ownerIsMarketingClient\":") p.owner_is_marketing_client
              (codes "}"),
          expect-append (codes "}") [],
        )
        (ap (λ (n : ℕ). some (record (as_signed p) { v = n })) (omega arith))

pub canonicalise-ok :
    (date : Dates) (raw : RawPayload) {s : Text}
    → canonicalise date raw ≡ ok s
    → (p : BadgePayload) × (checked date raw ≡ ok p) × (s ≡ serialised p)
unfolding canonicalise
canonicalise-ok date raw h = let (p, e, k) = >>=-eq-ok (checked date raw) _ h in (p, e, cc k)

-- The text that is signed says all that the payload says, its score to a tenth of a point: a reader
-- that knows only its form gets every field back, and whatever the fields hold, quotes and control
-- characters among them, two objects with one text hold the same payload but for what their scores
-- differ by below the rounding to a tenth.
pub canonicalise_reads_back :
    (date : Dates) (raw : RawPayload) {s : Text}
    → canonicalise date raw ≡ ok s
    → (p : BadgePayload) × (checked date raw ≡ ok p)
      × (read_payload s ≡ some (as_signed p))
      × ((other : RawPayload)
          → canonicalise date other ≡ ok s
          → (q : BadgePayload) × (checked date other ≡ ok q) × (as_signed q ≡ as_signed p))
canonicalise_reads_back date raw {s} h =
    let (p, e, k) = canonicalise-ok date raw h in
    let (version, score) = checked-ok date raw e in
    let back = ap read_payload k ∙ read-serialised p (omega (arith, version)) score in
    (
      p,
      e,
      back,
      λ other g.
          let (q, e', k') = canonicalise-ok date other g in
          let (version', score') = checked-ok date other e' in
          let back' = ap read_payload k' ∙ read-serialised q (omega (arith, version')) score' in
          (q, e', cc (back, back')),
    )
