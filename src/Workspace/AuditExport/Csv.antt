-- ===== src/Workspace/AuditExport/Csv.antt =====
-- A reader of CSV by RFC 4180, and what it makes of an export (packages/workspace/src/audit-export.ts).
use mathlib.Core.List.{append-nil, append_assoc}
use vibefy.Prelude.{
  ℕ, Bool, true, false, ◌||◌, Option, none, some, List, [], ◌∷◌, ◌++◌, any, if◌then◌else◌, nat_beq,
  ◌≡◌, refl, ap, ◌∙◌, inl, inr, Bool-cases, arith,
}
use vibefy.Prelude.Text.{Text}
use vibefy.Workspace.AuditExport.{is_special, doubled, quote_if_needed, line_end}

-- Where the reader stands: before a cell, in a plain or a quoted one, behind a closing quote, or
-- between the two characters that end a line.
pub data Mode : Type 0 where
  begin plain quoted after cr : Mode

data Move : Type 0 where
  fault next_cell next_line : Move
  go keep : Mode → Move

move_plain : ℕ → Move
move_plain c =
    if nat_beq c b','
    then next_cell
    else if nat_beq c 13
    then go cr
    else if any (nat_beq c) (b'"' ∷ 10 ∷ [])
    then fault
    else keep plain

move : Mode → ℕ → Move
move begin c = if nat_beq c b'"' then go quoted else move_plain c
move plain c = move_plain c
move quoted c = if nat_beq c b'"' then go after else keep quoted
move after c =
    if nat_beq c b'"'
    then keep quoted
    else if nat_beq c b','
    then next_cell
    else if nat_beq c 13
    then go cr
    else fault
move cr c = if nat_beq c 10 then next_line else fault

pub read : Mode → Text → List Text → List (List Text) → Text → Option (List (List Text))
read begin [] [] lines [] = some lines
read _ cell cells lines [] = none
read mode cell cells lines (c ∷ s) = elim (move mode c) [
  | fault ↦ none
  | go next ↦ read next cell cells lines s
  | keep next ↦ read next (cell ++ c ∷ []) cells lines s
  | next_cell ↦ read begin [] (cells ++ cell ∷ []) lines s
  | next_line ↦ read begin [] [] (lines ++ (cells ++ cell ∷ []) ∷ []) s
]

-- The lines of a file with their cells.
abbrev pub parse : Text → Option (List (List Text))
parse s = read begin [] [] [] s

abbrev pub ends_cell : ℕ → Bool
ends_cell c = any (nat_beq c) (b',' ∷ 13 ∷ [])

pub or_false : (a b : Bool) → (a || b) ≡ false → (a ≡ false) × (b ≡ false)
or_false a b h = ground (arith, h)

doubled-cons : (c : ℕ) (t : Text) → doubled (c ∷ t) ≡ doubled (c ∷ []) ++ doubled t
unfolding doubled
doubled-cons c t = ground arith

module _ (cells : List Text) (lines : List (List Text)) where
  -- The steps over one character of a cell.
  plain-keep :
      (cell : Text) (c : ℕ) (s : Text)
      → is_special c ≡ false
      → read plain cell cells lines (c ∷ s) ≡ read plain (cell ++ c ∷ []) cells lines s
  unfolding read move move_plain
  plain-keep cell c s safe = ground (arith, safe)

  begin-keep :
      (c : ℕ) (s : Text)
      → is_special c ≡ false
      → read begin [] cells lines (c ∷ s) ≡ read plain (c ∷ []) cells lines s
  unfolding read move move_plain
  begin-keep c s safe = ground (arith, safe)

  quoted-keep :
      (cell : Text) (c : ℕ) (s : Text)
      → read quoted cell cells lines (doubled (c ∷ []) ++ s)
        ≡ read quoted (cell ++ c ∷ []) cells lines s
  unfolding read move doubled
  quoted-keep cell c s = ground arith

  end-plain :
      (cell : Text) (e : ℕ) (rest : Text)
      → ends_cell e ≡ true
      → read plain cell cells lines (e ∷ rest) ≡ read after cell cells lines (e ∷ rest)
  unfolding read move move_plain
  end-plain cell e rest ends = ground (arith, ends)

  end-begin :
      (e : ℕ) (rest : Text)
      → ends_cell e ≡ true
      → read begin [] cells lines (e ∷ rest) ≡ read after [] cells lines (e ∷ rest)
  unfolding read move move_plain
  end-begin e rest ends = ground (arith, ends)

  plain-read :
      (cell t : Text) (e : ℕ) (rest : Text)
      → any is_special t ≡ false
      → ends_cell e ≡ true
      → read plain cell cells lines (t ++ e ∷ rest) ≡ read after (cell ++ t) cells lines (e ∷ rest)
  plain-read cell [] e rest safe ends = rw (append-nil cell) (end-plain cell e rest ends)
  plain-read cell (c ∷ t) e rest safe ends =
      let (here, more) = or_false (is_special c) (any is_special t) safe in
      plain-keep cell c (t ++ e ∷ rest) here
      ∙ plain-read (cell ++ c ∷ []) t e rest more ends
      ∙ rw append_assoc refl

  quoted-read :
      (cell t : Text) (e : ℕ) (rest : Text)
      → read quoted cell cells lines (doubled t ++ (b'"' ∷ e ∷ rest))
        ≡ read after (cell ++ t) cells lines (e ∷ rest)
  quoted-read cell [] e rest = rw (append-nil cell) (unfold read move doubled in refl)
  quoted-read cell (c ∷ t) e rest =
      ap (λ (s : Text). read quoted cell cells lines (s ++ (b'"' ∷ e ∷ rest))) (doubled-cons c t)
      ∙ rw append_assoc (quoted-keep cell c (doubled t ++ (b'"' ∷ e ∷ rest)))
      ∙ quoted-read (cell ++ c ∷ []) t e rest
      ∙ rw append_assoc refl

  -- What is written for a cell is read back, up to the character behind it.
  cell-read :
      (t : Text) (e : ℕ) (rest : Text)
      → ends_cell e ≡ true
      → read begin [] cells lines (quote_if_needed t ++ e ∷ rest)
        ≡ read after t cells lines (e ∷ rest)
  cell-read t e rest ends = elim (Bool-cases (any is_special t)) [
    | inl special ↦ rw special (
        unfold read move in
        ap (λ (s : Text). read quoted [] cells lines s)
          (append_assoc (doubled t) (b'"' ∷ []) (e ∷ rest))
        ∙ quoted-read [] t e rest)
    | inr safe ↦ rw safe (begin_plain t e rest safe ends)
  ]
    where
      begin_plain :
          (t : Text) (e : ℕ) (rest : Text)
          → any is_special t ≡ false
          → ends_cell e ≡ true
          → read begin [] cells lines (t ++ e ∷ rest) ≡ read after t cells lines (e ∷ rest)
      begin_plain [] e rest safe ends = end-begin e rest ends
      begin_plain (c ∷ t) e rest safe ends =
          let (here, more) = or_false (is_special c) (any is_special t) safe in
          begin-keep c (t ++ e ∷ rest) here ∙ plain-read (c ∷ []) t e rest more ends

  pub cell-comma :
      (t rest : Text)
      → read begin [] cells lines (quote_if_needed t ++ b',' ∷ rest)
        ≡ read begin [] (cells ++ t ∷ []) lines rest
  cell-comma t rest = cell-read t b',' rest refl ∙ unfold read move in refl

  pub cell-line_end :
      (t rest : Text)
      → read begin [] cells lines (quote_if_needed t ++ (line_end ++ rest))
        ≡ read begin [] [] (lines ++ (cells ++ t ∷ []) ∷ []) rest
  cell-line_end t rest = cell-read t 13 (10 ∷ rest) refl ∙ unfold read move in refl

pub read-end : (lines : List (List Text)) → read begin [] [] lines [] ≡ some lines
unfolding read
read-end lines = refl
