-- ===== src/K8s.antt =====
-- The two Kubernetes operators, nginx-deploy and operator: what they share, and each.
pub mod Types
pub mod Client
pub mod Heap
pub mod Nginx
pub mod Prom
pub mod Start
pub mod Registration
mod Tests
