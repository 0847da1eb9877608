-- ===== src/Manager.antt =====
-- src/manager: one load balancer for each ingress, created, updated and deleted.
pub mod Model
pub mod Compare
pub mod Dispatch
pub mod Update
pub mod Operations
pub mod Tests
