-- ===== src/Worker/Badges/Issue/Verifies.antt =====
-- A badge that the worker issues (apps/worker/src/badge.ts), as a stranger's software checks it
-- (packages/badge/src/sign.ts).
use vibefy.Prelude.{
  ℕ, ◌≤◌, ◌<◌, String, Bool, true, some, List, find?, ◌≡◌, ◌↔◌, refl, sym, ap, ◌∙◌, Memᴰ,
}
use vibefy.Prelude.Text.{Text}
use vibefy.Badge.Payload.{BadgePayload, raw_of}
use vibefy.Badge.Sign.{PublicJwk, SigningKey, SignedBadge, named, public_key_from_jwk, verify_badge}
use vibefy.Badge.Sign.Verdict.{IsWithin, sign_badge-ok, signed_badge_verifies}
use vibefy.Worker.Badges.Types.{BadgeRow, Tables}
use vibefy.Worker.Badges.Candidates.{find_issuance_candidates}
use vibefy.Worker.Badges.Issue.{Platform, Rules, Fresh, payload_of, sweep_badge_issuance}
use vibefy.Worker.Badges.Issue.Gate.{issue_all-badges}

module _ (platform : Platform) (rules : Rules) (key : SigningKey platform.crypto) where
  -- Where dates are read as they are written, the validity of a payload is that of its row.
  validity-row :
      (p : BadgePayload) (issued expires now : ℕ)
      → ((t : ℕ) → platform.date (platform.iso t) ≡ some t)
      → p.issued_at ≡ platform.iso issued
      → p.expires_at ≡ platform.iso expires
      → IsWithin platform.date p now ↔ ((issued ≤ now) × (now < expires))
  validity-row p issued expires now readable i e = (
    λ (a, b, read_a, read_b, le, lt).
        let same_a : a ≡ issued = cc (read_a, i, readable issued) in
        let same_b : b ≡ expires = cc (read_b, e, readable expires) in
        (rw (← same_a) le, rw (← same_b) lt),
    λ (le, lt). (
      issued,
      expires,
      ap platform.date i ∙ readable issued,
      ap platform.date e ∙ readable expires,
      le,
      lt,
    ),
  )

  -- A badge that the sweep issued verifies for everybody: against a list of keys in which the first of
  -- the signing key's name reads as its public half, its signature is valid over its whole payload,
  -- and it is within its validity exactly from the moment in its row at which it was issued until the
  -- one at which it expires, where dates are read as they are written.
  pub issued_badge_verifies :
      (is_authorised : String → Bool) (licence : String) (fresh : ℕ → Fresh) (moment : ℕ → ℕ)
      (tables : Tables) (b : BadgeRow) (keys : List PublicJwk) (jwk : PublicJwk)
      (public : platform.crypto.PublicKey) (now : ℕ)
      → Memᴰ b
          (sweep_badge_issuance platform rules is_authorised licence
            (some key)
            fresh
            moment
            tables).1
      → find? (named key.kid) keys ≡ some jwk
      → public_key_from_jwk platform.crypto platform.date jwk ≡ some public
      → ((m : Text)
          → platform.crypto.verify public m (platform.crypto.sign key.private_key m) ≡ true)
      → ((t : ℕ) → platform.date (platform.iso t) ≡ some t)
      → let answer =
          verify_badge platform.crypto platform.date
            (some (raw_of b.payload))
            b.signature
            keys
            now in
        (answer.signature_valid ≡ true)
        × (answer.payload ≡ some b.payload)
        × ((answer.within_validity ≡ true) ↔ ((b.issued_at ≤ now) × (now < b.expires_at)))
  unfolding sweep_badge_issuance
  issued_badge_verifies is_authorised licence fresh moment tables b keys jwk public now m published
        read pair readable =
      let (c, _, at, (f, origin, months, signed, _, _, sign, made)) =
        (issue_all-badges platform rules key fresh moment 0
            (find_issuance_candidates is_authorised licence tables 20) tables b).1
          m in
      let expires = platform.add_months at months in
      let p = payload_of platform rules key c f origin at expires in
      let (_, _, _, whole) = sign_badge-ok platform.crypto platform.date p key sign in
      let mine : signed.payload ≡ p = ap (λ (s : SignedBadge). s.payload) whole in
      let (valid, told, within) =
        signed_badge_verifies platform.crypto platform.date p key keys jwk public now sign published
          read pair in
      let (into, from) = validity-row p at expires now readable refl refl in
      rw made (valid, told ∙ ap some (sym mine), (λ h. into (within.0 h), λ h. within.1 (from h)))
