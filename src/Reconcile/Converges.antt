-- ===== src/Reconcile/Converges.antt =====
-- A run of `reconcile` at a namespace that is there, and the run after that.
use kubeflow_profile_control.Api.Profile.{Profile}
use kubeflow_profile_control.Api.Config.{Config}
