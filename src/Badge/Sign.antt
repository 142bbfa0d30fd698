-- ===== src/Badge/Sign.antt =====
-- packages/badge/src/sign.ts: signing a payload and checking a badge against the published keys.
-- Ed25519 and the reading of a key are parameters; a signature that cannot be parsed is one that does
-- not verify. A sentence of the explanation is a constructor; the `kid` of an answer is that of its
-- payload.
pub mod Verdict
mod Tests
use vibefy.Prelude.{
  ℕ, ◌≤◌, Bool, true, false, not, ◌&&◌, Option, none, some, List, [], ◌∷◌, ◌++◌, find?, is_empty,
  ltb, leb, if◌then◌else◌, ◌==◌, Result, ok, err, ◌>>=◌, ◌>>◌, throw_if, Eq, ◌≡◌, ◌↔◌, arith,
}
use vibefy.Prelude.Text.{Text, codes_eq}
use vibefy.Badge.Payload.{
  BadgePayload, RawPayload, PayloadError, Dates, canonicalise, parse_payload, raw_of,
}

-- The platform's cryptography.
pub record Crypto : Type 1 where
  pub PrivateKey : Type 0
  pub PublicKey : Type 0
  pub sign : PrivateKey → Text → Text
  pub verify : PublicKey → Text → Text → Bool
  pub read_key : Text → Option PublicKey

-- `is_ed25519` stands for the two fields `kty` and `crv`.
pub record PublicJwk : Type 0 where
  pub kid : Text
  pub x : Text
  pub is_ed25519 : Bool

pub data SignError : Type 0 where
  other_key : Text → Text → SignError
  bad_payload : PayloadError → SignError

pub data VerificationFailure : Type 0 where
  no_published_keys key_unusable unknown_key bad_signature : VerificationFailure
  malformed_payload expired not_yet_valid : VerificationFailure

pub data Explanation : Type 0 where
  not_well_formed no_keys_published altered_or_not_ours issued_in_future : Explanation
  not_issued_by_us cannot_read_key : Text → Explanation
  has_expired : BadgePayload → Explanation
  confirmed : BadgePayload → Explanation

pub record VerificationResult : Type 0 where
  pub signature_valid : Bool
  pub within_validity : Bool
  pub payload : Option BadgePayload
  pub failures : List VerificationFailure
  pub explanation : Explanation

abbrev refused : Option BadgePayload → VerificationFailure → Explanation → VerificationResult
refused payload failure explanation = record {
  signature_valid = false;
  within_validity = false;
  payload = payload;
  failures = failure ∷ [];
  explanation = explanation;
}

-- A date that cannot be read is not after any moment, nor before one.
abbrev pub is_after : Option ℕ → ℕ → Bool
is_after none now = false
is_after (some at) now = ltb now at

abbrev pub is_by : Option ℕ → ℕ → Bool
is_by none now = false
is_by (some at) now = leb at now

abbrev failing : Bool → VerificationFailure → List VerificationFailure
failing true failure = failure ∷ []
failing false failure = []

abbrev explain : BadgePayload → Bool → Bool → Explanation
explain p false started = has_expired p
explain p true false = issued_in_future
explain p true true = confirmed p

-- The answer once the signature was checked: the two dates count only for a genuine one.
abbrev pub judged : Dates → ℕ → BadgePayload → Bool → VerificationResult
judged date now p false = refused (some p) bad_signature altered_or_not_ours
judged date now p true =
    let current = is_after (date p.expires_at) now in
    let started = is_by (date p.issued_at) now in
    record {
      signature_valid = true;
      within_validity = current && started;
      payload = some p;
      failures = failing (not current) expired ++ failing (not started) not_yet_valid;
      explanation = explain p current started;
    }

pub record SigningKey (crypto : Crypto) : Type 0 where
  pub kid : Text
  pub private_key : crypto.PrivateKey

pub record SignedBadge : Type 0 where
  pub payload : BadgePayload
  pub signature : Text

abbrev pub named : Text → PublicJwk → Bool
named kid key = key.kid == kid

module _ (crypto : Crypto) (date : Dates) where
  abbrev payload_or_throw : Result PayloadError Text → Result SignError Text
  payload_or_throw (err e) = err (bad_payload e)
  payload_or_throw (ok s) = ok s

  unfoldable pub sign_badge : BadgePayload → SigningKey crypto → Result SignError SignedBadge
  sign_badge payload key = do
    throw_if (not (payload.kid == key.kid)) (other_key payload.kid key.kid)
    bytes ← payload_or_throw (canonicalise date (raw_of payload))
    ok (record { payload = payload; signature = crypto.sign key.private_key bytes })

  -- `publicKeyFromJwk`, with its throw as `none`.
  unfoldable pub public_key_from_jwk : PublicJwk → Option crypto.PublicKey
  public_key_from_jwk jwk = if jwk.is_ed25519 then crypto.read_key jwk.x else none

  -- `nodeVerify(null, canonicalise(payload), …)` in its `try`.
  abbrev pub accepts : crypto.PublicKey → Result PayloadError Text → Text → Bool
  accepts key (err e) signature = false
  accepts key (ok bytes) signature = crypto.verify key bytes signature

  abbrev with_key :
      RawPayload → BadgePayload → Text → ℕ → Option crypto.PublicKey → VerificationResult
  with_key raw p signature now none = refused (some p) key_unusable (cannot_read_key p.kid)
  with_key raw p signature now (some key) =
      judged date now p (accepts key (canonicalise date raw) signature)

  abbrev with_jwk : RawPayload → BadgePayload → Text → ℕ → Option PublicJwk → VerificationResult
  with_jwk raw p signature now none = refused (some p) unknown_key (not_issued_by_us p.kid)
  with_jwk raw p signature now (some jwk) = with_key raw p signature now (public_key_from_jwk jwk)

  abbrev with_payload :
      Option RawPayload
      → Text
      → List PublicJwk
      → ℕ
      → Result PayloadError BadgePayload
      → VerificationResult
  with_payload (some raw) signature keys now (ok p) =
      if is_empty keys
      then refused (some p) no_published_keys no_keys_published
      else with_jwk raw p signature now (find? (named p.kid) keys)
  with_payload _ signature keys now _ = refused none malformed_payload not_well_formed

  pub verify_badge : Option RawPayload → Text → List PublicJwk → ℕ → VerificationResult
  verify_badge raw signature keys now = with_payload raw signature keys now (parse_payload date raw)
