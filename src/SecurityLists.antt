-- ===== src/SecurityLists.antt =====
-- The security list rules of a load balancer's subnets and its nodes' subnets:
-- pkg/cloudprovider/providers/oci/load_balancer_security_lists.go.
pub mod Types
pub mod Services
pub mod Sweep
pub mod Additions
pub mod Changed
pub mod Frontend
pub mod Nodes
pub mod Manager
pub mod Samples
pub mod Tests
