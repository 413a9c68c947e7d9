-- ===== src/Plugins.antt =====
-- The plugins of controllers/kubeflow.org: plugin_iam.go and plugin_workload_identity.go.
pub mod Arn
pub mod Json
pub mod AssumeRole
pub mod Iam
pub mod WorkloadIdentity
pub mod Specs
