-- ===== src/Workspace.antt =====
-- packages/workspace/src: what a workspace takes out of the platform.
pub mod AuditExport
