-- ===== src/Ingress/Spec.antt =====
-- src/ingress/spec.go: the specification of an ingress's load balancer.
pub mod Draft
pub mod Build
mod Invariant
mod Steps
mod Details
mod Paths
mod Additions
mod Rules
mod Defaults
mod Sets
mod Samples
pub mod Closed
pub mod Created
mod Named
pub mod Last
pub mod Routed
pub mod Tests
