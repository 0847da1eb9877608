-- ===== src/Controller.antt =====
-- The controller: which ingresses are enqueued (src/controller/handlers), what a reconciliation
-- does (src/controller/reconciller.go), and which errors lead to another try.
pub mod Errors
pub mod Reconciler
pub mod Handlers
