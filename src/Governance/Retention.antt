-- ===== src/Governance/Retention.antt =====
-- packages/governance/src/retention.ts: what is past its deadline, and what was not really deleted.
-- The path that the pattern `artefact at (…)\.` finds in the sentence of a row is a field of the row.
pub mod Orphans
mod Tests
use vibefy.Prelude.{
  ℕ, String, Bool, true, false, not, ◌&&◌, ◌||◌, Option, none, some, List, [], ◌∷◌, filter, any,
  ltb, if◌then◌else◌, ◌==◌, text_eq, ◌≡◌, arith,
}
use vibefy.Prelude.Time.{Date}

pub data DataClass : Type 0 where
  evidence assessment_run_log alert cost_record : DataClass

-- `RETENTION_SCHEDULE`, read by `ruleFor`: it has a row for each class of the type.
unfoldable pub retention_days : DataClass → ℕ
retention_days evidence = 90
retention_days assessment_run_log = 180
retention_days alert = 365
retention_days cost_record = 2555

pub record RetainedRecord : Type 0 where
  pub id : String
  pub data_class : DataClass
  pub retention_until : Date
  pub sha256 : Option String
  pub organisation_id : Option String

pub due_for_deletion : List RetainedRecord → Date → List RetainedRecord
due_for_deletion records now = filter (λ (r : RetainedRecord). ltb r.retention_until now) records

pub record DeletionRecord : Type 0 where
  pub data_class : DataClass
  pub entity_id : String
  pub organisation_id : Option String
  pub sha256 : Option String
  pub retention_until : Date

pub deletion_record_for : RetainedRecord → DeletionRecord
deletion_record_for r = record {
  data_class = r.data_class;
  entity_id = r.id;
  organisation_id = r.organisation_id;
  sha256 = r.sha256;
  retention_until = r.retention_until;
}

-- The actions of an audit row: the two of an orphan, or any other.
pub data AuditAction : Type 0 where
  artefact_orphaned artefact_removed_later another_action : AuditAction

abbrev pub is_orphaned : AuditAction → Bool
is_orphaned artefact_orphaned = true
is_orphaned _ = false

abbrev pub is_removed_later : AuditAction → Bool
is_removed_later artefact_removed_later = true
is_removed_later _ = false

pub record OrphanAuditRow : Type 0 where
  pub action : AuditAction
  pub entity_id : Option String
  pub path_in_summary : Option String
  pub storage_path : Option String

abbrev path_from : Option String → Option String → Option String
path_from none in_summary = in_summary
path_from (some stored) in_summary = if stored == "" then in_summary else some stored

pub orphan_path : OrphanAuditRow → Option String
orphan_path row = path_from row.storage_path row.path_in_summary

-- `set.has(value)` where the set holds what is not null of the recovered rows.
abbrev pub same_text : Option String → Option String → Bool
same_text (some a) (some b) = a == b
same_text _ _ = false

pub unresolved_orphans : List OrphanAuditRow → List OrphanAuditRow
unresolved_orphans rows =
    let recovered = filter (λ (r : OrphanAuditRow). is_removed_later r.action) rows in
    filter
      (λ (row : OrphanAuditRow).
        is_orphaned row.action
        && (not
              (any (λ (r : OrphanAuditRow). same_text (orphan_path r) (orphan_path row)) recovered)
            && not (any (λ (r : OrphanAuditRow). same_text r.entity_id row.entity_id) recovered)))
      rows

-- `UNRESOLVED_ORPHANS_SQL` over the same rows. A comparison with null is not true, and `coalesce`
-- takes the stored path where it is not null, also where it is empty.
abbrev coalesce : Option String → Option String → Option String
coalesce none b = b
coalesce (some a) b = some a

pub sql_path : OrphanAuditRow → Option String
sql_path row = coalesce row.storage_path row.path_in_summary

abbrev is_known : Option String → Bool
is_known none = false
is_known (some a) = true

pub unresolved_sql : List OrphanAuditRow → List OrphanAuditRow
unresolved_sql rows =
    filter
      (λ (o : OrphanAuditRow).
        is_orphaned o.action
        && not (
            any
              (λ (later : OrphanAuditRow).
                is_removed_later later.action
                && (same_text (sql_path later) (sql_path o)
                    || (is_known o.entity_id && same_text later.entity_id o.entity_id)))
              rows))
      rows
