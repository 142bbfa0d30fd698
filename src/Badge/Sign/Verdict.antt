-- ===== src/Badge/Sign/Verdict.antt =====
-- What an answer about a badge means (packages/badge/src/sign.ts).
use vibefy.Prelude.{
  ℕ, ◌≤◌, ◌<◌, Bool, true, false, not, ◌&&◌, Option, none, some, List, [], ◌∷◌, find?, ltb→lt,
  lt→ltb, leb→le, le→leb, ◌==◌, eq_sound, Result, ok, err, >>=-eq-ok, throw_if, throw_if-eq-ok, ◌≡◌,
  ◌≢◌, ◌↔◌, refl, sym, ap, ◌∙◌, inl, inr, Bool-cases, and_true, arith,
}
use vibefy.Prelude.Text.{Text, codes_eq}
use vibefy.Badge.Payload.{
  BadgePayload, RawPayload, PayloadError, Dates, checked, canonicalise, parse_payload, raw_of,
}
use vibefy.Badge.Payload.RoundTrip.{
  as_signed, checked-raw_of, canonicalise-ok, canonicalise_reads_back,
}
use vibefy.Badge.Sign.{
  Crypto, PublicJwk, VerificationResult, is_after, is_by, judged, SigningKey, SignedBadge, named,
  payload_or_throw, sign_badge, public_key_from_jwk, accepts, with_key, with_jwk, with_payload,
  verify_badge,
}

-- A moment within the validity of a payload, by the dates in it.
abbrev pub IsWithin : Dates → BadgePayload → ℕ → Type 0
IsWithin date p now =
    (issued : ℕ) × (expires : ℕ) × (date p.issued_at ≡ some issued)
    × (date p.expires_at ≡ some expires)
    × (issued ≤ now)
    × (now < expires)

is_after_iff :
    (o : Option ℕ) (now : ℕ) → is_after o now ≡ true → (at : ℕ) × (o ≡ some at) × (now < at)
is_after_iff none now h = cc
is_after_iff (some at) now h = (at, refl, ltb→lt now at h)

is_by_iff : (o : Option ℕ) (now : ℕ) → is_by o now ≡ true → (at : ℕ) × (o ≡ some at) × (at ≤ now)
is_by_iff none now h = cc
is_by_iff (some at) now h = (at, refl, leb→le at now h)

IsWithin-iff :
    (date : Dates) (p : BadgePayload) (now : ℕ)
    → ((is_after (date p.expires_at) now && is_by (date p.issued_at) now) ≡ true)
      ↔ IsWithin date p now
IsWithin-iff date p now = (
  λ h.
      let (a, b) = and_true (is_after (date p.expires_at) now) (is_by (date p.issued_at) now) h in
      let (expires, e, lt) = is_after_iff (date p.expires_at) now a in
      let (issued, i, le) = is_by_iff (date p.issued_at) now b in (issued, expires, i, e, le, lt),
  λ (issued, expires, i, e, le, lt). rw (i, e, lt→ltb now expires lt, le→leb issued now le) refl,
)

module _ (crypto : Crypto) (date : Dates) where
  pub sign_badge-ok :
      (p : BadgePayload) (key : SigningKey crypto) {b : SignedBadge}
      → sign_badge crypto date p key ≡ ok b
      → (bytes : Text) × (canonicalise date (raw_of p) ≡ ok bytes)
        × (p.kid ≡ key.kid)
        × (b ≡ record { payload = p; signature = crypto.sign key.private_key bytes })
  unfolding sign_badge
  sign_badge-ok p key {b} h =
      let (_, good, rest) = >>=-eq-ok (throw_if (not (p.kid == key.kid)) _) _ h in
      let same = throw_if-eq-ok (not (p.kid == key.kid)) _ good in
      let (bytes, text, last) =
        >>=-eq-ok (payload_or_throw crypto date (canonicalise date (raw_of p))) _ rest in
      (
        bytes,
        of_payload (canonicalise date (raw_of p)) text,
        eq_sound p.kid key.kid (ground (arith, same)),
        cc last,
      )
    where
      of_payload :
          (m : Result PayloadError Text) {bytes : Text}
          → payload_or_throw crypto date m ≡ ok bytes
          → m ≡ ok bytes
      of_payload (err e) q = cc
      of_payload (ok t) q = cc q

  -- The signature of an object is genuine by a published key.
  abbrev pub IsGenuine : RawPayload → Text → List PublicJwk → BadgePayload → Type 0
  IsGenuine raw signature keys p =
      (bytes : Text) × (jwk : PublicJwk) × (key : crypto.PublicKey) × (checked date raw ≡ ok p)
      × (canonicalise date raw ≡ ok bytes)
      × (find? (named p.kid) keys ≡ some jwk)
      × (public_key_from_jwk crypto date jwk ≡ some key)
      × (crypto.verify key bytes signature ≡ true)

  -- With a published, readable key of the payload's name the verdict is that of the signature over
  -- the canonical text.
  verify-judged :
      (raw : RawPayload) (signature : Text) (keys : List PublicJwk) (now : ℕ) (bytes : Text)
      (p : BadgePayload) (jwk : PublicJwk) (key : crypto.PublicKey)
      → checked date raw ≡ ok p
      → canonicalise date raw ≡ ok bytes
      → find? (named p.kid) keys ≡ some jwk
      → public_key_from_jwk crypto date jwk ≡ some key
      → verify_badge crypto date (some raw) signature keys now
        ≡ judged date now p (crypto.verify key bytes signature)
  unfolding verify_badge parse_payload
  verify-judged raw signature (k ∷ keys) now bytes p jwk key parsed text published readable =
      rw (parsed, published, readable, text) refl
  verify-judged raw signature [] now bytes p jwk key parsed text published readable = cc published

  judged_valid :
      (now : ℕ) (p : BadgePayload) (good : Bool) → (judged date now p good).signature_valid ≡ good
  judged_valid now p true = refl
  judged_valid now p false = refl

  accepts-ok :
      (key : crypto.PublicKey) (m : Result PayloadError Text) (signature : Text)
      → accepts crypto date key m signature ≡ true
      → (bytes : Text) × (m ≡ ok bytes) × (crypto.verify key bytes signature ≡ true)
  accepts-ok key (err e) signature h = cc
  accepts-ok key (ok bytes) signature h = (bytes, refl, h)

  with_key-valid :
      (raw : RawPayload) (p : BadgePayload) (signature : Text) (now : ℕ)
      (readable : Option crypto.PublicKey)
      → (with_key crypto date raw p signature now readable).signature_valid ≡ true
      → (key : crypto.PublicKey) × (readable ≡ some key)
        × (accepts crypto date key (canonicalise date raw) signature ≡ true)
  with_key-valid raw p signature now none h = cc
  with_key-valid raw p signature now (some key) h = (
    key,
    refl,
    sym (judged_valid now p (accepts crypto date key (canonicalise date raw) signature)) ∙ h,
  )

  with_jwk-valid :
      (raw : RawPayload) (p : BadgePayload) (signature : Text) (now : ℕ)
      (published : Option PublicJwk)
      → (with_jwk crypto date raw p signature now published).signature_valid ≡ true
      → (jwk : PublicJwk) × (published ≡ some jwk)
        × ((with_key crypto date raw p signature now
              (public_key_from_jwk crypto date jwk)).signature_valid
            ≡ true)
  with_jwk-valid raw p signature now none h = cc
  with_jwk-valid raw p signature now (some jwk) h = (jwk, refl, h)

  with_payload-valid :
      (raw : RawPayload) (signature : Text) (keys : List PublicJwk) (now : ℕ)
      (m : Result PayloadError BadgePayload)
      → (with_payload crypto date (some raw) signature keys now m).signature_valid ≡ true
      → (p : BadgePayload) × (m ≡ ok p)
        × ((with_jwk crypto date raw p signature now (find? (named p.kid) keys)).signature_valid
            ≡ true)
  with_payload-valid raw signature keys now (err e) h = cc
  with_payload-valid raw signature [] now (ok p) h = cc
  with_payload-valid raw signature (k ∷ keys) now (ok p) h = (p, refl, h)

  valid-IsGenuine :
      (raw : RawPayload) (signature : Text) (keys : List PublicJwk) (now : ℕ)
      → (verify_badge crypto date (some raw) signature keys now).signature_valid ≡ true
      → (p : BadgePayload) × IsGenuine raw signature keys p
  unfolding verify_badge parse_payload
  valid-IsGenuine raw signature keys now h =
      let (p, parsed, h1) = with_payload-valid raw signature keys now (checked date raw) h in
      let (jwk, published, h2) = with_jwk-valid raw p signature now (find? (named p.kid) keys) h1 in
      let (key, readable, h3) =
        with_key-valid raw p signature now (public_key_from_jwk crypto date jwk) h2 in
      let (bytes, text, good) = accepts-ok key (canonicalise date raw) signature h3 in
      (p, (bytes, jwk, key, parsed, text, published, readable, good))

  -- An answer that calls nothing genuine calls nothing valid, and says why.
  abbrev IsRefusal : VerificationResult → Type 0
  IsRefusal r = r.signature_valid ≡ false → (r.within_validity ≡ false) × (r.failures ≢ [])

  judged-refused : (now : ℕ) (p : BadgePayload) (good : Bool) → IsRefusal (judged date now p good)
  judged-refused now p true h = cc h
  judged-refused now p false h = (refl, λ e. cc e)

  with_key-refused :
      (raw : RawPayload) (p : BadgePayload) (signature : Text) (now : ℕ)
      (readable : Option crypto.PublicKey)
      → IsRefusal (with_key crypto date raw p signature now readable)
  with_key-refused raw p signature now none h = (refl, λ e. cc e)
  with_key-refused raw p signature now (some key) h =
      judged-refused now p (accepts crypto date key (canonicalise date raw) signature) h

  with_jwk-refused :
      (raw : RawPayload) (p : BadgePayload) (signature : Text) (now : ℕ)
      (published : Option PublicJwk)
      → IsRefusal (with_jwk crypto date raw p signature now published)
  with_jwk-refused raw p signature now none h = (refl, λ e. cc e)
  with_jwk-refused raw p signature now (some jwk) h =
      with_key-refused raw p signature now (public_key_from_jwk crypto date jwk) h

  with_payload-refused :
      (input : Option RawPayload) (signature : Text) (keys : List PublicJwk) (now : ℕ)
      (m : Result PayloadError BadgePayload)
      → IsRefusal (with_payload crypto date input signature keys now m)
  with_payload-refused none signature keys now (err e) h = (refl, λ e. cc e)
  with_payload-refused none signature keys now (ok p) h = (refl, λ e. cc e)
  with_payload-refused (some raw) signature keys now (err e) h = (refl, λ e. cc e)
  with_payload-refused (some raw) signature [] now (ok p) h = (refl, λ e. cc e)
  with_payload-refused (some raw) signature (k ∷ keys) now (ok p) h =
      with_jwk-refused raw p signature now (find? (named p.kid) (k ∷ keys)) h

  -- A badge is called genuine exactly where its payload is well formed, a key of the name that the
  -- payload gives is published and can be read, and the signature holds over the canonical text by
  -- that key. Whatever is not called genuine, an input that is no object among it, is not called within
  -- its validity either, and the answer names a reason.
  pub IsGenuine-iff :
      (signature : Text) (keys : List PublicJwk) (now : ℕ)
      → ((raw : RawPayload)
          → ((verify_badge crypto date (some raw) signature keys now).signature_valid ≡ true)
            ↔ ((p : BadgePayload) × IsGenuine raw signature keys p))
        × ((verify_badge crypto date none signature keys now).signature_valid ≡ false)
        × ((input : Option RawPayload)
            → let answer = verify_badge crypto date input signature keys now in
              answer.signature_valid ≡ false
              → (answer.within_validity ≡ false) × (answer.failures ≢ []))
  unfolding verify_badge parse_payload
  IsGenuine-iff signature keys now = (
    λ raw. (
      valid-IsGenuine raw signature keys now,
      λ (p, (bytes, jwk, key, parsed, text, published, readable, good)).
          ap (λ (r : VerificationResult). r.signature_valid)
            (verify-judged raw signature keys now bytes p jwk key parsed text published readable)
          ∙ judged_valid now p (crypto.verify key bytes signature)
          ∙ good,
    ),
    refl,
    λ input. with_payload-refused input signature keys now (parse_payload date input),
  )

  -- A badge that was signed verifies against every list of keys whose first key of its name reads as
  -- the public half of the signing key: its signature is valid, its payload is given back, and it is
  -- within its validity exactly from its date of issue up to and without its date of expiry.
  pub signed_badge_verifies :
      (p : BadgePayload) (key : SigningKey crypto) {b : SignedBadge} (keys : List PublicJwk)
      (jwk : PublicJwk) (public : crypto.PublicKey) (now : ℕ)
      → sign_badge crypto date p key ≡ ok b
      → find? (named key.kid) keys ≡ some jwk
      → public_key_from_jwk crypto date jwk ≡ some public
      → ((m : Text) → crypto.verify public m (crypto.sign key.private_key m) ≡ true)
      → let answer = verify_badge crypto date (some (raw_of b.payload)) b.signature keys now in
        (answer.signature_valid ≡ true)
        × (answer.payload ≡ some p)
        × ((answer.within_validity ≡ true) ↔ IsWithin date p now)
  signed_badge_verifies p key {b} keys jwk public now signed published readable pair =
      let (bytes, text, same, made) = sign_badge-ok p key signed in
      let (q, parsed, _) = canonicalise-ok date (raw_of p) text in
      let mine = checked-raw_of date p parsed in
      let answer =
        verify-judged (raw_of p) (crypto.sign key.private_key bytes) keys now bytes p jwk public
          (parsed ∙ ap ok mine) text (ap (λ (k : Text). find? (named k) keys) same ∙ published)
          readable in
      rw (made, answer, pair bytes) (refl, refl, IsWithin-iff date p now)

  -- A signature made for one badge serves no other: where it holds over no text but the one that was
  -- signed, by any key, an object presented with it is genuine only if it holds the payload that was
  -- signed, in every field, and a score that rounds to the same tenth of a point.
  pub altered_badge_is_refused :
      (p : BadgePayload) (key : SigningKey crypto) {b : SignedBadge} (raw : RawPayload)
      (keys : List PublicJwk) (now : ℕ)
      → sign_badge crypto date p key ≡ ok b
      → ((k : crypto.PublicKey) (m m' : Text)
          → crypto.verify k m' (crypto.sign key.private_key m) ≡ true
          → m' ≡ m)
      → ((q : BadgePayload) → checked date raw ≡ ok q → as_signed q ≢ as_signed p)
      → (verify_badge crypto date (some raw) b.signature keys now).signature_valid ≡ false
  altered_badge_is_refused p key {b} raw keys now signed binding other =
      elim (Bool-cases (verify_badge crypto date (some raw) b.signature keys now).signature_valid) [
        | inr invalid ↦ invalid
        | inl valid ↦
            let (bytes, text, same, made) = sign_badge-ok p key signed in
            let (q, (bytes', jwk, k, parsed, text', _, _, good)) =
              valid-IsGenuine raw b.signature keys now valid in
            let unaltered =
              binding k bytes bytes'
                (ap (λ (s : SignedBadge). crypto.verify k bytes' s.signature) (sym made) ∙ good) in
            let (q', parsed', _, alone) = canonicalise_reads_back date (raw_of p) text in
            let mine = checked-raw_of date p parsed' in
            let (shown, holds, alike) = alone raw (text' ∙ ap ok unaltered) in
            absurd (other shown holds (alike ∙ ap as_signed mine))
      ]
