-- ===== src/Governance/Retention/Tests.antt =====
-- Two orphans, one of them removed later (packages/governance/src/retention.ts).
use vibefy.Prelude.{String, none, some, List, [], ◌∷◌, Memᴰ, mem_cons_elim, ◌≡◌, ◌≢◌}
use vibefy.Governance.Retention.{
  DataClass, RetainedRecord, AuditAction, OrphanAuditRow, unresolved_orphans, unresolved_sql,
}
use vibefy.Governance.Retention.Orphans.{orphans_agree}

abbrev screenshot : RetainedRecord
screenshot = record {
  id = "e1";
  data_class = DataClass.evidence;
  retention_until = 1000;
  sha256 = some "abc";
  organisation_id = none;
}

abbrev row : AuditAction → String → OrphanAuditRow
row action path = record {
  action = action;
  entity_id = none;
  path_in_summary = some path;
  storage_path = none;
}

abbrev log : List OrphanAuditRow
log =
    row AuditAction.artefact_orphaned "a/1"
    ∷ row AuditAction.artefact_orphaned "a/2"
    ∷ row AuditAction.artefact_removed_later "a/1"
    ∷ []

no_stored_path : (r : OrphanAuditRow) → Memᴰ r log → r.storage_path ≢ some ""
no_stored_path =
    mem_cons_elim Given (λ e. cc e)
      (mem_cons_elim Given (λ e. cc e) (mem_cons_elim Given (λ e. cc e) (λ r i. elim i [ ])))
  where
    Given : OrphanAuditRow → Type 0
    Given r = r.storage_path ≢ some ""

orphans_agree_example : unresolved_orphans log ≡ unresolved_sql log
orphans_agree_example = orphans_agree log no_stored_path
