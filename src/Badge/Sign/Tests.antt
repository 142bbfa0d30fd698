-- ===== src/Badge/Sign/Tests.antt =====
-- Badges at concrete values (packages/badge/src/sign.ts, payload.ts), by a signature that is the text
-- itself and a calendar of one day.
use vibefy.Prelude.{
  ◌*◌, ◌/◌, Option, Bool, Result, err, ap, true, false, none, some, [], ◌∷◌, ok, ◌≡◌, ◌≢◌, ◌↔◌,
  refl,
}
use vibefy.Prelude.Text.{Text, codes, same_text, same_text_iff, codes_eq}
use vibefy.Prelude.Double.{one, to_tenths}
use vibefy.Badge.Payload.{
  PayloadError, BadgePayload, RawPayload, Dates, checked, canonicalise, serialised, raw_of,
}
use vibefy.Badge.Payload.RoundTrip.{read_payload, as_signed, canonicalise_reads_back}
use vibefy.Badge.Sign.{
  Crypto, PublicJwk, SigningKey, SignedBadge, sign_badge, public_key_from_jwk, verify_badge,
}
use vibefy.Badge.Sign.Verdict.{
  IsWithin, IsGenuine, IsGenuine-iff, signed_badge_verifies, altered_badge_is_refused,
}

abbrev plain : Crypto
plain = record {
  PrivateKey = Text;
  PublicKey = Text;
  sign = λ key m. m;
  verify = λ key m s. same_text m s;
  read_key = λ x. some x;
}

abbrev calendar : Dates
calendar [] = none
calendar (c ∷ s) = some c

abbrev payload : BadgePayload
payload = record {
  v = 1;
  kid = codes "k1";
  badge_id = codes "b";
  slug = codes "say \"hi\"\\";
  app_name = 10 ∷ codes "App";
  certified_origin = codes "https://a.test";
  rubric_version = codes "1.0.0";
  score = 825 * one / 10;
  assessed_on = codes "0";
  issued_at = codes "1";
  expires_at = codes "9";
  owner_is_marketing_client = true;
}

abbrev text : Text
text = serialised payload

abbrev signing_key : SigningKey plain
signing_key = record { kid = codes "k1"; private_key = codes "p" }

abbrev published : PublicJwk
published = record { kid = codes "k1"; x = codes "x"; is_ed25519 = true }

abbrev badge : SignedBadge
badge = record { payload = payload; signature = text }

abbrev altered : RawPayload
altered = record (raw_of payload) { owner_is_marketing_client = some false }

text-canonicalise : canonicalise calendar (raw_of payload) ≡ ok text
unfolding canonicalise checked serialised one to_tenths
text-canonicalise = refl

badge-sign : sign_badge plain calendar payload signing_key ≡ ok badge
unfolding sign_badge same_text canonicalise checked serialised one to_tenths
badge-sign = refl

canonicalise_reads_back_example :
    (p : BadgePayload) × (checked calendar (raw_of payload) ≡ ok p)
    × (read_payload text ≡ some (as_signed p))
    × ((other : RawPayload)
        → canonicalise calendar other ≡ ok text
        → (q : BadgePayload) × (checked calendar other ≡ ok q) × (as_signed q ≡ as_signed p))
canonicalise_reads_back_example =
    canonicalise_reads_back calendar (raw_of payload) text-canonicalise

IsGenuine-iff_example :
    ((raw : RawPayload)
      → ((verify_badge plain calendar (some raw) text (published ∷ []) 50).signature_valid ≡ true)
        ↔ ((p : BadgePayload) × IsGenuine plain calendar raw text (published ∷ []) p))
    × ((verify_badge plain calendar none text (published ∷ []) 50).signature_valid ≡ false)
    × ((input : Option RawPayload)
        → let answer = verify_badge plain calendar input text (published ∷ []) 50 in
          answer.signature_valid ≡ false
          → (answer.within_validity ≡ false) × (answer.failures ≢ []))
IsGenuine-iff_example = IsGenuine-iff plain calendar text (published ∷ []) 50

signed_badge_verifies_example :
    ((verify_badge plain calendar (some (raw_of payload)) text (published ∷ []) 50).signature_valid
      ≡ true)
    × ((verify_badge plain calendar (some (raw_of payload)) text (published ∷ []) 50).payload
        ≡ some payload)
    × (((verify_badge plain calendar
            (some (raw_of payload))
            text
            (published ∷ [])
            50).within_validity
          ≡ true)
        ↔ IsWithin calendar payload 50)
unfolding public_key_from_jwk same_text
signed_badge_verifies_example =
    signed_badge_verifies plain calendar payload signing_key (published ∷ []) published (codes "x")
      50 badge-sign refl refl (λ m. (same_text_iff m m).1 refl)

altered-checked :
    (q : BadgePayload) → checked calendar altered ≡ ok q → as_signed q ≢ as_signed payload
unfolding checked one
altered-checked q h e =
    cc (ap (λ (p : BadgePayload). p.owner_is_marketing_client) e, ap client_of h)
  where
    client_of : Result PayloadError BadgePayload → Bool
    client_of (err _) = true
    client_of (ok p) = p.owner_is_marketing_client

altered_badge_is_refused_example :
    (verify_badge plain calendar (some altered) text (published ∷ []) 50).signature_valid ≡ false
altered_badge_is_refused_example =
    altered_badge_is_refused plain calendar payload signing_key altered (published ∷ []) 50
      badge-sign (λ k m m' h. (same_text_iff m' m).0 h) altered-checked
