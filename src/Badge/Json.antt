-- ===== src/Badge/Json.antt =====
-- `JSON.stringify` of a text, a number and a Boolean, and a reader of its own for what it writes.
-- Texts are well-formed Unicode: JSON.stringify writes half of a surrogate pair otherwise. Numbers are
-- in tenths, below a thousand whole ones.
use native.Mathlib.Omega.{arith}
use mathlib.Core.List.{append-nil, append_assoc}
use vibefy.Prelude.{
  ℕ, suc, zero, ◌+◌, ◌-◌, ◌*◌, ◌/◌, ◌%◌, ◌≤◌, ◌<◌, Bool, true, false, ◌&&◌, ◌||◌, Option, none,
  some, [], ◌∷◌, ◌++◌, ltb, leb, nat_beq, if◌then◌else◌, ◌==◌, number_eq, ◌≡◌, refl, ap, ◌∙◌, inl,
  inr, Bool-cases, and_true, nat_beq_iff,
}
use vibefy.Prelude.Text.{Text, codes, expect}

abbrev pub hex : ℕ → ℕ
hex d = if ltb d 10 then b'0' + d else b'a' + (d - 10)

-- What is written for one code point.
pub escaped : ℕ → Text
escaped c =
    if c == b'"'
    then b'\\' ∷ b'"' ∷ []
    else if c == b'\\'
    then b'\\' ∷ b'\\' ∷ []
    else if c == 8
    then b'\\' ∷ b'b' ∷ []
    else if c == 9
    then b'\\' ∷ b't' ∷ []
    else if c == 10
    then b'\\' ∷ b'n' ∷ []
    else if c == 12
    then b'\\' ∷ b'f' ∷ []
    else if c == 13
    then b'\\' ∷ b'r' ∷ []
    else if ltb c 32
    then b'\\' ∷ b'u' ∷ b'0' ∷ b'0' ∷ hex (c / 16) ∷ hex (c % 16) ∷ []
    else c ∷ []

-- The inside of the quotes, with the closing one, in front of what follows.
pub inside : Text → Text → Text
inside [] rest = b'"' ∷ rest
inside (c ∷ s) rest = escaped c ++ inside s rest

abbrev pub quoted : Text → Text → Text
quoted s rest = b'"' ∷ inside s rest

abbrev digit : ℕ → ℕ
digit d = b'0' + d

abbrev whole : ℕ → Text
whole n =
    if ltb n 10
    then digit n ∷ []
    else if ltb n 100
    then digit (n / 10) ∷ digit (n % 10) ∷ []
    else digit (n / 100) ∷ digit (n / 10 % 10) ∷ digit (n % 10) ∷ []

-- A number of tenths: no point where there is no tenth.
pub number : ℕ → Text
number n = whole (n / 10) ++ (if n % 10 == 0 then [] else b'.' ∷ digit (n % 10) ∷ [])

pub boolean : Bool → Text
boolean true = codes "true"
boolean false = codes "false"

-- The reader of a text, a state machine over its code points.
pub data Mode : Type 0 where
  plain backslash : Mode
  hexes : ℕ → ℕ → Mode

pub data Move : Type 0 where
  close fault : Move
  go : Mode → Move
  emit : ℕ → Move

abbrev value_of : ℕ → ℕ
value_of c = if ltb c b'a' then c - b'0' else c - b'a' + 10

move_escape : ℕ → Move
move_escape c =
    if c == b'"'
    then emit b'"'
    else if c == b'\\'
    then emit b'\\'
    else if c == b'b'
    then emit 8
    else if c == b't'
    then emit 9
    else if c == b'n'
    then emit 10
    else if c == b'f'
    then emit 12
    else if c == b'r'
    then emit 13
    else if c == b'u'
    then go (hexes 3 0)
    else fault

move : Mode → ℕ → Move
move plain c = if c == b'"' then close else if c == b'\\' then go backslash else emit c
move backslash c = move_escape c
move (hexes zero v) c = emit (v * 16 + value_of c)
move (hexes (suc n) v) c = go (hexes n (v * 16 + value_of c))

pub read : Mode → Text → Text → Option (Text × Text)
read mode s [] = none
read mode s (c ∷ cs) = elim (move mode c) [
  | close ↦ some (s, cs)
  | fault ↦ none
  | go next ↦ read next s cs
  | emit d ↦ read plain (s ++ d ∷ []) cs
]

read-escaped :
    (s : Text) (c : ℕ) (rest : Text)
    → read plain s (escaped c ++ rest) ≡ read plain (s ++ c ∷ []) rest
unfolding read move move_escape escaped
read-escaped s c rest = ground arith

-- What is written for a text is read back, with what follows it.
pub read-inside : (s t rest : Text) → read plain s (inside t rest) ≡ some (s ++ t, rest)
unfolding inside
read-inside s [] rest = rw (append-nil s) (unfold read move in refl)
read-inside s (c ∷ t) rest =
    read-escaped s c (inside t rest) ∙ read-inside (s ++ c ∷ []) t rest ∙ rw append_assoc refl

abbrev pub read_text : Text → Option (Text × Text)
read_text [] = none
read_text (c ∷ s) = if c == b'"' then read plain [] s else none

pub read_text-quoted : (s rest : Text) → read_text (quoted s rest) ≡ some (s, rest)
read_text-quoted s rest = read-inside [] s rest

-- The reader of a number: its characters, and the tenths that they stand for.
abbrev is_numeric : ℕ → Bool
is_numeric c = (c == b'.') || (leb b'0' c && leb c b'9')

abbrev before_first : ℕ → Text × Text → Text × Text
before_first c (s, rest) = (c ∷ s, rest)

span : Text → Text × Text
span [] = ([], [])
span (c ∷ s) = let later = span s in if is_numeric c then before_first c later else ([], c ∷ s)

tenths : ℕ → Bool → Text → ℕ
tenths n true [] = n
tenths n false [] = n * 10
tenths n point (c ∷ s) =
    tenths (if c == b'.' then n else n * 10 + (c - b'0')) (if c == b'.' then true else point) s

all_numeric : Text → Bool
all_numeric [] = true
all_numeric (c ∷ s) = is_numeric c && all_numeric s

span-append :
    (s : Text) (c : ℕ) (rest : Text)
    → all_numeric s ≡ true
    → is_numeric c ≡ false
    → span (s ++ c ∷ rest) ≡ (s, c ∷ rest)
unfolding span all_numeric
span-append [] c rest h other = rw other refl
span-append (d ∷ s) c rest h other =
    let (numeric, more) = and_true (is_numeric d) (all_numeric s) h in
    rw (numeric, span-append s c rest more other) refl

abbrev reads_back : ℕ → Bool
reads_back n = all_numeric (number n) && nat_beq (tenths 0 false (number n)) n

all_below : ℕ → Bool
all_below zero = true
all_below (suc n) = reads_back n && all_below n

all_below_sound : (n x : ℕ) → all_below n ≡ true → x < n → reads_back x ≡ true
unfolding all_below
all_below_sound zero x h lt = absurd (omega arith)
all_below_sound (suc n) x h lt = elim (Bool-cases (nat_beq x n)) [
  | inl last ↦ rw ((nat_beq_iff x n).0 last) (and_true (reads_back n) (all_below n) h).0
  | inr other ↦
      all_below_sound n x (and_true (reads_back n) (all_below n) h).1 (ground (arith, other, lt))
]

table : all_below 1001 ≡ true
unfolding all_below number tenths all_numeric
table = refl

pub read_number : Text → ℕ × Text
read_number s = let (n, rest) = span s in (tenths 0 false n, rest)

-- A number from 0 to 100, in tenths, is read back where a comma follows it.
pub read_number-number :
    (n : ℕ) (rest : Text) → n ≤ 1000 → read_number (number n ++ b',' ∷ rest) ≡ (n, b',' ∷ rest)
unfolding read_number
read_number-number n rest h =
    let (numeric, value) =
      and_true (all_numeric (number n)) (nat_beq (tenths 0 false (number n)) n)
        (all_below_sound 1001 n table (omega (arith, h))) in
    rw (span-append (number n) b',' rest numeric refl)
      (ap (λ (x : ℕ). (x, b',' ∷ rest)) ((nat_beq_iff (tenths 0 false (number n)) n).0 value))

abbrev pub read_boolean : Text → Option (Bool × Text)
read_boolean s = elim (expect (codes "true") s) [
  | some rest ↦ some (true, rest)
  | none ↦ elim (expect (codes "false") s) [ some rest ↦ some (false, rest) | none ↦ none ]
]

pub read_boolean-boolean :
    (b : Bool) (rest : Text) → read_boolean (boolean b ++ rest) ≡ some (b, rest)
unfolding expect boolean
read_boolean-boolean true rest = refl
read_boolean-boolean false rest = refl
