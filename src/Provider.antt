-- ===== src/Provider.antt =====
-- The cloud provider as the ingress manager drives it: pkg/cloudprovider/providers/oci/loadbalancer.go.
pub mod Subnets
pub mod State
pub mod Update
