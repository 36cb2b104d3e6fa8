-- ===== src/Status.antt =====
-- The status controller, pkg/controllers/nodeclass/status/controller.go.
pub mod Conditions
pub mod Resolution
pub mod Template
pub mod Reconcile
