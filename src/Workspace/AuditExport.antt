-- ===== src/Workspace/AuditExport.antt =====
-- packages/workspace/src/audit-export.ts: a workspace's records as a file. The rows of the queries,
-- JSON, SHA-256 and the writing of a date are parameters. A value of a row is the text that
-- `String(…)` or `toISOString()` makes of it, the texts of a list, or nothing.
pub mod Csv
pub mod RoundTrip
mod Tests
use vibefy.Prelude.{
  ℕ, ◌+◌, Bool, true, false, ◌||◌, Option, none, some, List, [], ◌∷◌, ◌++◌, map, length, any, take,
  find?, if◌then◌else◌, nat_beq,
}
use vibefy.Prelude.Text.{Text, codes, same_text}

pub data Value : Type 0 where
  absent : Value
  shown : Text → Value
  several : List Text → Value

-- The columns of a row in their order, with their values.
abbrev pub Row : Type 0
Row = List (Text × Value)

unfoldable pub join : Text → List Text → Text
join separator [] = []
join separator (t ∷ []) = t
join separator (t ∷ u ∷ ts) = t ++ (separator ++ join separator (u ∷ ts))

abbrev pub text_of : Value → Text
text_of absent = []
text_of (shown t) = t
text_of (several ts) = join (codes "; ") ts

-- `/^[=+\-@\t\r]/`.
abbrev pub starts_formula : Text → Bool
starts_formula [] = false
starts_formula (c ∷ _) = any (nat_beq c) (b'=' ∷ b'+' ∷ b'-' ∷ b'@' ∷ 9 ∷ 13 ∷ [])

abbrev pub guarded : Text → Text
guarded t = if starts_formula t then b'\'' ∷ t else t

-- `/[",\n\r]/`.
abbrev pub is_special : ℕ → Bool
is_special c = any (nat_beq c) (b'"' ∷ b',' ∷ 10 ∷ 13 ∷ [])

unfoldable pub doubled : Text → Text
doubled [] = []
doubled (c ∷ s) = if nat_beq c b'"' then b'"' ∷ b'"' ∷ doubled s else c ∷ doubled s

abbrev pub quote_if_needed : Text → Text
quote_if_needed t = if any is_special t then b'"' ∷ (doubled t ++ b'"' ∷ []) else t

-- What a value says in its cell; nothing is an empty text, which no rule changes.
abbrev pub cell_text : Value → Text
cell_text v = guarded (text_of v)

unfoldable pub to_csv_cell : Value → Text
to_csv_cell v = quote_if_needed (cell_text v)

-- `row[column]`.
unfoldable pub value_at : Text → Row → Value
value_at column [] = absent
value_at column ((name, v) ∷ row) = if same_text name column then v else value_at column row

abbrev pub columns_of : Row → List Text
columns_of row = map (λ (c : Text × Value). c.0) row

abbrev pub line_end : Text
line_end = 13 ∷ 10 ∷ []

abbrev pub line : List Text → Row → Text
line columns row = join (b',' ∷ []) (map (λ (c : Text). to_csv_cell (value_at c row)) columns)

unfoldable pub to_csv : List Row → Text
to_csv [] = []
to_csv (row ∷ rows) =
    let columns = columns_of row in
    join line_end (join (b',' ∷ []) columns ∷ map (line columns) (row ∷ rows)) ++ line_end

pub data AuditExportKind : Type 0 where
  assessments findings authorisations consents badge_events audit_log : AuditExportKind

pub data AuditExportFormat : Type 0 where
  csv json : AuditExportFormat

pub record AuditExportRequest : Type 0 where
  pub organisation_id : Text
  pub kind : AuditExportKind
  pub format : Option AuditExportFormat
  pub period_start : Option ℕ
  pub period_end : Option ℕ

pub record AuditExportResult : Type 0 where
  pub kind : AuditExportKind
  pub format : AuditExportFormat
  pub filename : Text
  pub media_type : Text
  pub body : Text
  pub row_count : ℕ
  pub sha256 : Text
  pub period_start : ℕ
  pub period_end : ℕ

-- The platform: the query of a kind for an organisation and a period, a date as its ISO text, JSON
-- and SHA-256.
pub record Sources : Type 0 where
  pub query : AuditExportKind → Text → ℕ → ℕ → List Row
  pub iso : ℕ → Text
  pub stringify : List Row → Text
  pub sha256 : Text → Text

abbrev pub or_else {ℓ} : {A : Type ℓ} → Option A → A → A
or_else none a = a
or_else (some a) _ = a

-- `EPOCH`, 1 January 2020, in milliseconds.
abbrev pub epoch : ℕ
epoch = 1577836800000

abbrev kind_text : AuditExportKind → Text
kind_text assessments = codes "assessments"
kind_text findings = codes "findings"
kind_text authorisations = codes "authorisations"
kind_text consents = codes "consents"
kind_text badge_events = codes "badge_events"
kind_text audit_log = codes "audit_log"

abbrev format_text : AuditExportFormat → Text
format_text csv = codes "csv"
format_text json = codes "json"

abbrev media_type_of : AuditExportFormat → Text
media_type_of csv = codes "text/csv; charset=utf-8"
media_type_of json = codes "application/json; charset=utf-8"

abbrev body_of : Sources → AuditExportFormat → List Row → Text
body_of sources csv rows = to_csv rows
body_of sources json rows = sources.stringify rows ++ 10 ∷ []

unfoldable pub run_audit_export : Sources → AuditExportRequest → ℕ → AuditExportResult
run_audit_export sources request now =
    let format = or_else request.format csv in
    let start = or_else request.period_start epoch in
    let end = or_else request.period_end (now + 60000) in
    let rows = sources.query request.kind request.organisation_id start end in
    let body = body_of sources format rows in
    record {
      kind = request.kind;
      format = format;
      filename =
          codes "vibefycode-"
          ++ (kind_text request.kind
              ++ (codes "-" ++ (take 10 (sources.iso end) ++ (codes "." ++ format_text format))));
      media_type = media_type_of format;
      body = body;
      row_count = length rows;
      sha256 = sources.sha256 body;
      period_start = start;
      period_end = end;
    }
