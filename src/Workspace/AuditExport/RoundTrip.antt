-- ===== src/Workspace/AuditExport/RoundTrip.antt =====
-- An export read back by a reader of its own (packages/workspace/src/audit-export.ts).
use mathlib.Core.List.{append-nil, append_assoc}
use vibefy.Prelude.{
  ℕ, ◌+◌, Bool, true, false, not, some, List, [], ◌∷◌, ◌++◌, map, length, length-map, any, all,
  is_empty, ◌≡◌, ◌≢◌, ◌⊎◌, refl, sym, ap, ◌∙◌, inl, inr, Bool-cases, and_true, Memᴰ, mem_map→,
  arith,
}
use vibefy.Prelude.Text.{Text}
use vibefy.Workspace.AuditExport.{
  Value, Row, join, starts_formula, guarded, is_special, quote_if_needed, cell_text, text_of,
  to_csv_cell, value_at, columns_of, line_end, line, to_csv, csv, AuditExportRequest, Sources,
  run_audit_export, or_else, epoch,
}
use vibefy.Workspace.AuditExport.Csv.{begin, read, parse, cell-comma, cell-line_end, read-end}

abbrev line_of : List Text → Text
line_of cells = join (b',' ∷ []) (map quote_if_needed cells)

line-read :
    (cells : List Text) (lines : List (List Text)) (t : Text) (ts : List Text) (rest : Text)
    → read begin [] cells lines (line_of (t ∷ ts) ++ (line_end ++ rest))
      ≡ read begin [] [] (lines ++ (cells ++ t ∷ ts) ∷ []) rest
unfolding join
line-read cells lines t [] rest = cell-line_end cells lines t rest
line-read cells lines t (u ∷ ts) rest =
    ap (read begin [] cells lines)
      (append_assoc (quote_if_needed t) (b',' ∷ line_of (u ∷ ts)) (line_end ++ rest))
    ∙ cell-comma cells lines t (line_of (u ∷ ts) ++ (line_end ++ rest))
    ∙ line-read (cells ++ t ∷ []) lines u ts rest
    ∙ rw append_assoc refl

has_cells : List Text → Bool
has_cells cells = not (is_empty cells)

lines-read :
    (done : List (List Text)) (x : List Text) (xs : List (List Text))
    → all has_cells (x ∷ xs) ≡ true
    → read begin [] [] done (join line_end (map line_of (x ∷ xs)) ++ line_end)
      ≡ some (done ++ x ∷ xs)
unfolding join has_cells
lines-read done [] xs h = cc h
lines-read done (t ∷ ts) [] h =
    ap (λ (s : Text). read begin [] [] done (line_of (t ∷ ts) ++ s)) (sym (append-nil line_end))
    ∙ line-read [] done t ts []
    ∙ read-end (done ++ (t ∷ ts) ∷ [])
lines-read done (t ∷ ts) (y ∷ ys) h =
    ap (read begin [] [] done)
      (append_assoc (line_of (t ∷ ts)) (line_end ++ join line_end (map line_of (y ∷ ys))) line_end)
    ∙ line-read [] done t ts (join line_end (map line_of (y ∷ ys)) ++ line_end)
    ∙ lines-read (done ++ (t ∷ ts) ∷ []) y ys h
    ∙ rw append_assoc refl

-- What a row says in the cells of some columns.
abbrev cells_of : List Text → Row → List Text
cells_of columns row = map (λ (c : Text). cell_text (value_at c row)) columns

line-cells : (columns : List Text) (row : Row) → line columns row ≡ line_of (cells_of columns row)
unfolding to_csv_cell
line-cells columns row = ap (join (b',' ∷ [])) (cells columns)
  where
    cells :
        (cs : List Text)
        → map (λ (c : Text). to_csv_cell (value_at c row)) cs
          ≡ map quote_if_needed (cells_of cs row)
    cells [] = refl
    cells (c ∷ cs) = ap (λ (ts : List Text). to_csv_cell (value_at c row) ∷ ts) (cells cs)

lines-cells :
    (columns : List Text) (rows : List Row)
    → map (line columns) rows ≡ map line_of (map (cells_of columns) rows)
lines-cells columns [] = refl
lines-cells columns (row ∷ rows) = rw (line-cells columns row, lines-cells columns rows) refl

-- Names of columns that no rule of the format changes.
abbrev pub is_plain : Text → Bool
is_plain t = not (any is_special t)

header-plain :
    (columns : List Text) → all is_plain columns ≡ true → join (b',' ∷ []) columns ≡ line_of columns
header-plain columns h = ap (join (b',' ∷ [])) (sym (same columns h))
  where
    same : (cs : List Text) → all is_plain cs ≡ true → map quote_if_needed cs ≡ cs
    same [] h = refl
    same (c ∷ cs) h =
        let (here, more) = and_true (is_plain c) (all is_plain cs) h in
        rw (same cs more) (elim (Bool-cases (any is_special c)) [
          | inl special ↦ cc (rw special at here)
          | inr safe ↦ rw safe refl
        ])

cells-HaveCells :
    (c : Text) (cs : List Text) (rows : List Row)
    → all has_cells (map (cells_of (c ∷ cs)) rows) ≡ true
unfolding has_cells
cells-HaveCells c cs [] = refl
cells-HaveCells c cs (row ∷ rows) = cells-HaveCells c cs rows

to_csv-read :
    (name : Text) (v : Value) (row : Row) (rows : List Row)
    → let columns = columns_of ((name, v) ∷ row) in
      all is_plain columns ≡ true
      → parse (to_csv (((name, v) ∷ row) ∷ rows))
        ≡ some (
            columns_of ((name, v) ∷ row)
            ∷ map (cells_of (columns_of ((name, v) ∷ row))) (((name, v) ∷ row) ∷ rows))
unfolding to_csv value_at has_cells
to_csv-read name v row rows plain =
    let first : Row = (name, v) ∷ row in
    let columns = columns_of first in
    rw (header-plain columns plain, lines-cells columns (first ∷ rows))
      (lines-read [] columns (map (cells_of columns) (first ∷ rows))
        (cells-HaveCells name (columns_of row) (first ∷ rows)))

-- The same for any first row that has a column.
pub read-rows :
    (row : Row) (rows : List Row)
    → row ≢ []
    → all is_plain (columns_of row) ≡ true
    → parse (to_csv (row ∷ rows))
      ≡ some (columns_of row ∷ map (cells_of (columns_of row)) (row ∷ rows))
read-rows [] rows filled plain = absurd (filled refl)
read-rows ((name, v) ∷ row) rows filled plain = to_csv-read name v row rows plain

guarded-safe : (t : Text) → starts_formula (guarded t) ≡ false
guarded-safe [] = refl
guarded-safe (c ∷ t) = ground arith

-- The period that an export asks its query for.
abbrev pub exported : Sources → AuditExportRequest → ℕ → List Row
exported sources request now =
    sources.query request.kind request.organisation_id (or_else request.period_start epoch)
      (or_else request.period_end (now + 60000))

-- What a cell holds for a text: the text, behind an apostrophe where it begins like a formula.
abbrev pub Holds : Text → Text → Type 0
Holds t cell =
    ((starts_formula t ≡ false) × (cell ≡ t)) ⊎ ((starts_formula t ≡ true) × (cell ≡ b'\'' ∷ t))

-- A cell for each column, and it holds the text of the row's value.
abbrev pub RowHolds : List Text → Row → List Text → Type 0
RowHolds [] row [] = Unit
RowHolds (c ∷ cs) row (t ∷ ts) = Holds (text_of (value_at c row)) t × RowHolds cs row ts
RowHolds _ row _ = ⊥

-- A record for each row, in order.
abbrev pub TableHolds : List Text → List Row → List (List Text) → Type 0
TableHolds columns [] [] = Unit
TableHolds columns (row ∷ rows) (cells ∷ records) =
    RowHolds columns row cells × TableHolds columns rows records
TableHolds columns _ _ = ⊥

guarded-Holds : (t : Text) → Holds t (guarded t)
guarded-Holds t = elim (Bool-cases (starts_formula t)) [
  | inl formula ↦ rw formula (inr (refl, refl))
  | inr plain ↦ rw plain (inl (refl, refl))
]

cells_of-RowHolds : (columns : List Text) (row : Row) → RowHolds columns row (cells_of columns row)
cells_of-RowHolds [] row = tt
cells_of-RowHolds (c ∷ cs) row =
    (guarded-Holds (text_of (value_at c row)), cells_of-RowHolds cs row)

cells_of-TableHolds :
    (columns : List Text) (rows : List Row) → TableHolds columns rows (map (cells_of columns) rows)
cells_of-TableHolds columns [] = tt
cells_of-TableHolds columns (row ∷ rows) =
    (cells_of-RowHolds columns row, cells_of-TableHolds columns rows)

-- An export as CSV whose columns have plain names is read back by RFC 4180: a line of the names, then
-- for each row of the query, in order, a record with a cell for each column, which holds the text of
-- the row's value, whatever characters are in it, and an apostrophe before it where it begins like a
-- formula. The count that is stored with the file is the number of these records, and the hash is that
-- of the file.
pub export_reads_back :
    (sources : Sources) (request : AuditExportRequest) (now : ℕ) (row : Row) (rows : List Row)
    → or_else request.format csv ≡ csv
    → exported sources request now ≡ row ∷ rows
    → row ≢ []
    → all is_plain (columns_of row) ≡ true
    → let r = run_audit_export sources request now in
      (records : List (List Text)) × (parse r.body ≡ some (columns_of row ∷ records))
      × TableHolds (columns_of row) (row ∷ rows) records
      × (length records ≡ r.row_count)
      × (r.sha256 ≡ sources.sha256 r.body)
unfolding run_audit_export
export_reads_back sources request now row rows format found filled plain = (
  map (cells_of (columns_of row)) (row ∷ rows),
  rw (format, found) (read-rows row rows filled plain),
  cells_of-TableHolds (columns_of row) (row ∷ rows),
  rw found (length-map (cells_of (columns_of row)) (row ∷ rows)),
  refl,
)

cells-safe :
    (columns : List Text) (rows : List Row) (cells : List Text) (cell : Text)
    → Memᴰ cells (map (cells_of columns) rows)
    → Memᴰ cell cells
    → starts_formula cell ≡ false
cells-safe columns rows cells cell m n =
    let (row, _, made) = mem_map→ (cells_of columns) rows m in
    let (column, _, said) =
      mem_map→ (λ (c : Text). cell_text (value_at c row)) columns (rw made at n) in
    ap starts_formula said ∙ guarded-safe (text_of (value_at column row))

-- No cell of a record, as a reader of the file sees it, begins with a character that makes a
-- spreadsheet run it as a formula, where the columns have plain names.
pub no_cell_is_a_formula :
    (row : Row) (rows : List Row) (header : List Text) (records : List (List Text))
    → row ≢ []
    → all is_plain (columns_of row) ≡ true
    → parse (to_csv (row ∷ rows)) ≡ some (header ∷ records)
    → (cells : List Text) → Memᴰ cells records
    → (cell : Text) → Memᴰ cell cells
    → starts_formula cell ≡ false
no_cell_is_a_formula row rows header records filled plain told cells m cell n =
    cells-safe (columns_of row) (row ∷ rows) cells cell (rw same at m) n
  where
    same : records ≡ map (cells_of (columns_of row)) (row ∷ rows)
    same = cc (told, read-rows row rows filled plain)
