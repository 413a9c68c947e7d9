-- ===== src/Api.antt =====
-- The objects that the controller reads and writes: apis/ and the Kubernetes types that it uses.
pub mod Meta
pub mod Profile
pub mod Config
pub mod Access
pub mod Workload
