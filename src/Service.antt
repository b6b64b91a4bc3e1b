-- ===== src/Service.antt =====
-- mrp_controller/service/mrp_service.go: the reconciliation of one application.
pub mod Revisions
pub mod Patch
pub mod Reconcile
pub mod Annotations
pub mod Converge
pub mod Stable
pub mod Retry
pub mod Minimal
pub mod RefreshPaths
mod Tests
