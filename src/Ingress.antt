-- ===== src/Ingress.antt =====
-- What the controller reads off an ingress object: src/ingress.
pub mod Annotations
pub mod Shape
pub mod Names
pub mod Routing
pub mod Backends
pub mod Listeners
pub mod Spec
pub mod Tls
pub mod SubnetIds
pub mod Tests
