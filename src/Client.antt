-- ===== src/Client.antt =====
-- pkg/oci/client: the calls of the OCI services behind the client's own rate limits.
pub mod Sdk
pub mod LoadBalancers
pub mod Lookup
pub mod Polling
mod Tests
