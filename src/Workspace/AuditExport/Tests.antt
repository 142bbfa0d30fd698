-- ===== src/Workspace/AuditExport/Tests.antt =====
-- Exports at concrete values (packages/workspace/src/audit-export.ts).
use vibefy.Prelude.{false, none, some, List, [], ◌∷◌, length, ◌≡◌, ◌≢◌, refl, Memᴰ}
use vibefy.Prelude.Text.{Text, codes, same_text}
use vibefy.Workspace.AuditExport.{
  absent, shown, several, Row, starts_formula, to_csv, columns_of, join, value_at, AuditExportKind,
  AuditExportRequest, Sources, run_audit_export,
}
use vibefy.Workspace.AuditExport.Csv.{parse}
use vibefy.Workspace.AuditExport.RoundTrip.{
  read-rows, TableHolds, export_reads_back, no_cell_is_a_formula,
}

abbrev first : Row
first =
    (codes "id", shown (codes "a1"))
    ∷ (codes "app_name", shown (codes "=SUM(\"x\"), inc"))
    ∷ (codes "reviewed_at", absent)
    ∷ []

abbrev second : Row
second =
    (codes "id", shown (codes "a2"))
    ∷ (codes "app_name", several (codes "x" ∷ codes "y" ∷ []))
    ∷ (codes "reviewed_at", shown (codes "2026-01-01"))
    ∷ []

abbrev sources : Sources
sources = record {
  query = λ kind organisation start end. first ∷ second ∷ [];
  iso = λ t. codes "2026-02-03T00:00:00.000Z";
  stringify = λ rows. codes "[]";
  sha256 = λ t. t;
}

abbrev request : AuditExportRequest
request = record {
  organisation_id = codes "o";
  kind = AuditExportKind.assessments;
  format = none;
  period_start = none;
  period_end = none;
}

abbrev read_rows : List (List Text)
read_rows =
    (codes "a1" ∷ codes "'=SUM(\"x\"), inc" ∷ [] ∷ [])
    ∷ (codes "a2" ∷ codes "x; y" ∷ codes "2026-01-01" ∷ [])
    ∷ []

first-filled : first ≢ []
first-filled h = cc h

export_reads_back_example :
    (records : List (List Text)) × (parse (run_audit_export sources request 1770000000000).body
      ≡ some (columns_of first ∷ records))
    × TableHolds (columns_of first) (first ∷ second ∷ []) records
    × (length records ≡ (run_audit_export sources request 1770000000000).row_count)
    × ((run_audit_export sources request 1770000000000).sha256
        ≡ (run_audit_export sources request 1770000000000).body)
unfolding value_at join same_text
export_reads_back_example =
    export_reads_back sources request 1770000000000 first (second ∷ []) refl refl first-filled refl

file-parse : parse (to_csv (first ∷ second ∷ [])) ≡ some (columns_of first ∷ read_rows)
unfolding value_at join same_text
file-parse = read-rows first (second ∷ []) first-filled refl

no_cell_is_a_formula_example : starts_formula (codes "'=SUM(\"x\"), inc") ≡ false
no_cell_is_a_formula_example =
    no_cell_is_a_formula first (second ∷ []) (columns_of first) read_rows first-filled refl
      file-parse (codes "a1" ∷ codes "'=SUM(\"x\"), inc" ∷ [] ∷ []) (Memᴰ.head refl)
      (codes "'=SUM(\"x\"), inc") (Memᴰ.tail (Memᴰ.head refl))
