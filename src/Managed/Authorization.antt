-- ===== src/Managed/Authorization.antt =====
-- What `updateIstioAuthorizationPolicy` leaves on the API server.
use kubeflow_profile_control.Prelude.{Option, none, some, List, ◌∷◌}
use kubeflow_profile_control.Api.Meta.{ObjectMeta}
use kubeflow_profile_control.Api.Profile.{Profile}
use kubeflow_profile_control.Api.Access.{AuthorizationPolicy, AuthorizationPolicySpec}
use kubeflow_profile_control.Cluster.{
  Object, Event, create_object, update_object, Reply, found, failed,
}

-- The policy that the server holds: the last one written, or the one that was read.
abbrev pub held_policy : List Event → Reply AuthorizationPolicy → Option AuthorizationPolicy
held_policy (create_object (Object.authorization_policy q) ∷ _) r = some q
held_policy (update_object (Object.authorization_policy q) ∷ _) r = some q
held_policy _ (found q) = some q
held_policy _ (failed e) = none

-- A policy with the spec, and with the metadata of the one that is there, if any.
abbrev pub policy_with :
    AuthorizationPolicySpec → ObjectMeta → Reply AuthorizationPolicy → AuthorizationPolicy
policy_with spec m (failed e) = record { meta = m; spec = spec }
policy_with spec m (found old) = record { meta = old.meta; spec = spec }
