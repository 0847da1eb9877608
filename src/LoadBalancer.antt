-- ===== src/LoadBalancer.antt =====
-- The reconciliation of one load balancer: pkg/cloudprovider/providers/oci/load_balancer_util.go.
pub mod Types
pub mod Report
pub mod BackendSets
pub mod Listeners
pub mod Actions
pub mod Samples
