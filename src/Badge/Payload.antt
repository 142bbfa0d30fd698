-- ===== src/Badge/Payload.antt =====
-- packages/badge/src/payload.ts: the exact text that is signed. A payload arrives as an object that
-- may lack fields, hold null for one, or have fields of its own; a field that is there has the type of
-- the interface. A score is a double (Prelude/Double). The platform's reading of a date is a parameter.

pub mod RoundTrip
use vibefy.Prelude.{
  ℕ, ◌*◌, ◌≤◌, Bool, true, false, not, Option, none, some, List, [], ◌∷◌, ◌++◌, is_empty, leb,
  nat_beq, if◌then◌else◌, Result, ok, err, ◌>>=◌, ◌>>◌, throw_if,
}
use vibefy.Prelude.Text.{Text, codes}
use vibefy.Prelude.Double.{one, to_tenths}
use vibefy.Badge.Json.{quoted, number, boolean}

-- `typeof score === 'number'`: not finite, below zero, or a double from zero up.
pub data Score : Type 0 where
  not_finite negative : Score
  finite : ℕ → Score

pub record BadgePayload : Type 0 where
  pub v : ℕ
  pub kid : Text
  pub badge_id : Text
  pub slug : Text
  pub app_name : Text
  pub certified_origin : Text
  pub rubric_version : Text
  pub score : ℕ
  pub assessed_on : Text
  pub issued_at : Text
  pub expires_at : Text
  pub owner_is_marketing_client : Bool

-- `unexpected` holds the names of the fields that are not signed.
pub record RawPayload : Type 0 where
  pub v : Option ℕ
  pub kid : Option Text
  pub badge_id : Option Text
  pub slug : Option Text
  pub app_name : Option Text
  pub certified_origin : Option Text
  pub rubric_version : Option Text
  pub score : Option Score
  pub assessed_on : Option Text
  pub issued_at : Option Text
  pub expires_at : Option Text
  pub owner_is_marketing_client : Option Bool
  pub unexpected : List Text

pub data SignedKey : Type 0 where
  v kid badge_id slug app_name certified_origin rubric_version score : SignedKey
  assessed_on issued_at expires_at owner_is_marketing_client : SignedKey

pub data PayloadError : Type 0 where
  missing not_a_date : SignedKey → PayloadError
  unexpected_fields : List Text → PayloadError
  unsupported_version : ℕ → PayloadError
  bad_score not_an_object : PayloadError

abbrev pub payload_version : ℕ
payload_version = 1

-- Which text is a date, and which moment it is.
abbrev pub Dates : Type 0
Dates = Text → Option ℕ

abbrev required {ℓ} : {A : Type ℓ} → SignedKey → Option A → Result PayloadError A
required key none = err (missing key)
required key (some a) = ok a

abbrev in_range : Score → Result PayloadError ℕ
in_range not_finite = err bad_score
in_range negative = err bad_score
in_range (finite n) = if leb n (100 * one) then ok n else err bad_score

abbrev is_no_date : Option ℕ → Bool
is_no_date none = true
is_no_date (some at) = false

-- The checks of `canonicalise`, in its order.
unfoldable pub checked : Dates → RawPayload → Result PayloadError BadgePayload
checked date raw = do
  version ← required v raw.v
  kid' ← required kid raw.kid
  badge_id' ← required badge_id raw.badge_id
  slug' ← required slug raw.slug
  app_name' ← required app_name raw.app_name
  origin ← required certified_origin raw.certified_origin
  rubric ← required rubric_version raw.rubric_version
  given ← required score raw.score
  assessed ← required assessed_on raw.assessed_on
  issued ← required issued_at raw.issued_at
  expires ← required expires_at raw.expires_at
  client ← required owner_is_marketing_client raw.owner_is_marketing_client
  throw_if (not (is_empty raw.unexpected)) (unexpected_fields raw.unexpected)
  throw_if (not (nat_beq version payload_version)) (unsupported_version version)
  points ← in_range given
  throw_if (is_no_date (date assessed)) (not_a_date assessed_on)
  throw_if (is_no_date (date issued)) (not_a_date issued_at)
  throw_if (is_no_date (date expires)) (not_a_date expires_at)
  ok (record {
    v = version;
    kid = kid';
    badge_id = badge_id';
    slug = slug';
    app_name = app_name';
    certified_origin = origin;
    rubric_version = rubric;
    score = points;
    assessed_on = assessed;
    issued_at = issued;
    expires_at = expires;
    owner_is_marketing_client = client;
  })

-- The fields in the order of `SIGNED_KEYS`; a number is written to one decimal.
unfoldable pub serialised : BadgePayload → Text
serialised p =
    codes "{\"v\":"
    ++ (number (10 * p.v)
        ++ (codes ",\"kid\":"
            ++ quoted p.kid (
                codes ",\"badgeId\":"
                ++ quoted p.badge_id (
                    codes ",\"slug\":"
                    ++ quoted p.slug (
                        codes ",\"appName\":"
                        ++ quoted p.app_name (
                            codes ",\"certifiedOrigin\":"
                            ++ quoted p.certified_origin (
                                codes ",\"rubricVersion\":"
                                ++ quoted p.rubric_version (
                                    codes ",\"score\":"
                                    ++ (number (to_tenths p.score)
                                        ++ (codes ",\"assessedOn\":"
                                            ++ quoted p.assessed_on (
                                                codes ",\"issuedAt\":"
                                                ++ quoted p.issued_at (
                                                    codes ",\"expiresAt\":"
                                                    ++ quoted p.expires_at (
                                                        codes ",\"ownerIsMarketingClient\":"
                                                        ++ (boolean p.owner_is_marketing_client
                                                            ++ codes "}"))))))))))))))

unfoldable pub canonicalise : Dates → RawPayload → Result PayloadError Text
canonicalise date raw = do p ← checked date raw; ok (serialised p)

-- `raw` is `none` where it is no object. The object itself is returned, once it has been validated.
unfoldable pub parse_payload : Dates → Option RawPayload → Result PayloadError BadgePayload
parse_payload date none = err not_an_object
parse_payload date (some raw) = checked date raw

-- A complete payload as an object.
abbrev pub raw_of : BadgePayload → RawPayload
raw_of p = record {
  v = some p.v;
  kid = some p.kid;
  badge_id = some p.badge_id;
  slug = some p.slug;
  app_name = some p.app_name;
  certified_origin = some p.certified_origin;
  rubric_version = some p.rubric_version;
  score = some (finite p.score);
  assessed_on = some p.assessed_on;
  issued_at = some p.issued_at;
  expires_at = some p.expires_at;
  owner_is_marketing_client = some p.owner_is_marketing_client;
  unexpected = [];
}
