-- ===== src/Worker/Badges/Slug.antt =====
-- The address of a badge (`slugify` of apps/worker/src/badge.ts), over the text in lower case, with the
-- random part as an argument.
use vibefy.Prelude.{
  ℕ, zero, suc, ◌+◌, ◌≤◌, Bool, true, false, ◌&&◌, ◌||◌, [], ◌∷◌, ◌++◌, length, all, take, leb,
  nat_beq, if◌then◌else◌, ◌≡◌, refl, inl, inr, Bool-cases, and_true, arith,
}
use vibefy.Prelude.Text.{Text, codes}

-- `[a-z0-9]`.
abbrev pub is_word : ℕ → Bool
is_word c = (leb b'a' c && leb c b'z') || (leb b'0' c && leb c b'9')

-- `.replace(/[^a-z0-9]+/g, '-')`, inside a run of other characters or not.
unfoldable pub dashed : Bool → Text → Text
dashed in_run [] = []
dashed in_run (c ∷ s) =
    if is_word c then c ∷ dashed false s else if in_run then dashed true s else b'-' ∷ dashed true s

-- `.replace(/^-|-$/g, '')`.
unfoldable pub without_last_dash : Text → Text
without_last_dash [] = []
without_last_dash (c ∷ []) = if nat_beq c b'-' then [] else c ∷ []
without_last_dash (c ∷ d ∷ s) = c ∷ without_last_dash (d ∷ s)

abbrev pub without_first_dash : Text → Text
without_first_dash [] = []
without_first_dash (c ∷ s) = if nat_beq c b'-' then s else c ∷ s

abbrev pub or_app : Text → Text
or_app [] = codes "app"
or_app (c ∷ s) = c ∷ s

unfoldable pub slugify : Text → Text → Text
slugify lowered random =
    or_app (take 40 (without_last_dash (without_first_dash (dashed false lowered))))
    ++ b'-' ∷ random

-- The check of the column: `^[a-z0-9][a-z0-9-]{2,62}$`.
abbrev pub is_slug_character : ℕ → Bool
is_slug_character c = is_word c || nat_beq c b'-'

abbrev pub is_slug : Text → Bool
is_slug [] = false
is_slug (c ∷ s) = is_word c && (all is_slug_character s && (leb 2 (length s) && leb (length s) 62))

abbrev starts_well : Text → Bool
starts_well [] = true
starts_well (c ∷ s) = is_word c

in_run-starts : (s : Text) → starts_well (dashed true s) ≡ true
unfolding dashed
in_run-starts [] = refl
in_run-starts (c ∷ s) = elim (Bool-cases (is_word c)) [
  | inl word ↦ rw word word
  | inr other ↦ rw other (in_run-starts s)
]

word_is_no_dash : (c : ℕ) → is_word c ≡ true → nat_beq c b'-' ≡ false
word_is_no_dash c h = ground (arith, h)

dashed-starts : (s : Text) → starts_well (without_first_dash (dashed false s)) ≡ true
unfolding dashed
dashed-starts [] = refl
dashed-starts (c ∷ s) = elim (Bool-cases (is_word c)) [
  | inl word ↦ rw (word, word_is_no_dash c word) word
  | inr other ↦ rw other (in_run-starts s)
]

without_last_dash-starts :
    (s : Text) → starts_well s ≡ true → starts_well (without_last_dash s) ≡ true
unfolding without_last_dash
without_last_dash-starts [] h = refl
without_last_dash-starts (c ∷ []) h = rw (word_is_no_dash c h) h
without_last_dash-starts (c ∷ d ∷ s) h = h

dashed-all : (b : Bool) (s : Text) → all is_slug_character (dashed b s) ≡ true
unfolding dashed
dashed-all b [] = refl
dashed-all b (c ∷ s) = ground (arith, dashed-all true s, dashed-all false s)

without_last_dash-all :
    (s : Text) → all is_slug_character s ≡ true → all is_slug_character (without_last_dash s) ≡ true
unfolding without_last_dash
without_last_dash-all [] h = refl
without_last_dash-all (c ∷ []) h = ground (arith, h)
without_last_dash-all (c ∷ d ∷ s) h = ground (arith, h, without_last_dash-all (d ∷ s))

without_first_dash-all :
    (s : Text)
    → all is_slug_character s ≡ true
    → all is_slug_character (without_first_dash s) ≡ true
without_first_dash-all [] h = refl
without_first_dash-all (c ∷ s) h = ground (arith, h)

take-all :
    (n : ℕ) (s : Text)
    → all is_slug_character s ≡ true
    → (all is_slug_character (take n s) ≡ true) × (length (take n s) ≤ n)
take-all zero s h = (refl, omega arith)
take-all (suc n) [] h = (refl, omega arith)
take-all (suc n) (c ∷ s) h =
    let (here, more) = and_true (is_slug_character c) (all is_slug_character s) h in
    let (good, short) = take-all n s more in (rw (here, good) refl, omega (arith, short))

take-starts : (s : Text) → starts_well s ≡ true → starts_well (take 40 s) ≡ true
take-starts [] h = refl
take-starts (c ∷ s) h = h

with_random :
    (s random : Text)
    → all is_slug_character s ≡ true
    → all is_slug_character random ≡ true
    → (all is_slug_character (s ++ b'-' ∷ random) ≡ true)
      × (length (s ++ b'-' ∷ random) ≡ length s + (1 + length random))
with_random [] random h r = (rw r refl, omega arith)
with_random (c ∷ s) random h r =
    let (here, more) = and_true (is_slug_character c) (all is_slug_character s) h in
    let (good, long) = with_random s random more r in (rw (here, good) refl, omega (arith, long))

of_base :
    (s random : Text)
    → starts_well s ≡ true
    → all is_slug_character s ≡ true
    → length s ≤ 40
    → all is_slug_character random ≡ true
    → length random ≡ 6
    → is_slug (or_app s ++ b'-' ∷ random) ≡ true
of_base [] random w h short r six = rw r (rw six refl)
of_base (c ∷ s) random w h short r six =
    let (here, more) = and_true (is_slug_character c) (all is_slug_character s) h in
    let (good, long) = with_random s random more r in
    rw (w, good) (ground (arith, long, six, short))

-- The address made for a badge, whatever the application is called, is one that the table takes:
-- letters, digits and dashes, a letter or digit first, of three to sixty-three characters, where the
-- random part is six letters or digits.
pub slugify-is_slug :
    (lowered random : Text)
    → all is_word random ≡ true
    → length random ≡ 6
    → is_slug (slugify lowered random) ≡ true
unfolding slugify
slugify-is_slug lowered random words six =
    let base = without_last_dash (without_first_dash (dashed false lowered)) in
    let (good, short) = take-all 40 base (
      without_last_dash-all (without_first_dash (dashed false lowered))
        (without_first_dash-all (dashed false lowered) (dashed-all false lowered))) in
    of_base (take 40 base) random
      (take-starts base (
        without_last_dash-starts (without_first_dash (dashed false lowered))
          (dashed-starts lowered)))
      good short (words-all random words) six
  where
    words-all : (s : Text) → all is_word s ≡ true → all is_slug_character s ≡ true
    words-all [] h = refl
    words-all (c ∷ s) h = ground (arith, h, words-all s)
