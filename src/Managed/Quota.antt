-- ===== src/Managed/Quota.antt =====
-- `updateResourceQuota` run twice.
use kubeflow_profile_control.Prelude.{Option, none, some, List, ◌∷◌}
use kubeflow_profile_control.Api.Profile.{Profile}
use kubeflow_profile_control.Api.Access.{ResourceQuota}
use kubeflow_profile_control.Cluster.{
  Object, Event, create_object, update_object, Reply, found, failed,
}

-- The quota that the server holds: the last one written, or the one that was read.
abbrev pub held_quota : List Event → Reply ResourceQuota → Option ResourceQuota
held_quota (create_object (Object.resource_quota q) ∷ _) r = some q
held_quota (update_object (Object.resource_quota q) ∷ _) r = some q
held_quota _ (found q) = some q
held_quota _ (failed e) = none
