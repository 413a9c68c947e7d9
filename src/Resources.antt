-- ===== src/Resources.antt =====
-- The generators of controllers/kubeflow.org/profile_controller.go. They are pure, and `Reconcile`
-- has its calls of them commented out.
pub mod Documents
pub mod Workloads
pub mod Settings
pub mod Aws
pub mod Consistent
