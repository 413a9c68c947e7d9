-- ===== src/Tests/Authorizing.antt =====
-- A run of `updateIstioAuthorizationPolicy` at a policy that lets everybody in.
use kubeflow_profile_control.Prelude.{String, none, some, [], ◌∷◌}
use kubeflow_profile_control.Api.Meta.{zero_meta}
use kubeflow_profile_control.Api.Access.{AuthorizationPolicy, allow}
use kubeflow_profile_control.Cluster.{State}
use kubeflow_profile_control.Tests.Server.{Server, server}

abbrev open_to_all : AuthorizationPolicy
open_to_all = record {
  meta = record zero_meta {
    name = "ns-owner-access-istio";
    namespace = "alice-ns";
    resource_version = "7";
  };
  spec = record {
    action = allow;
    selector = none;
    rules = record { from = []; to = []; when = [] } ∷ [];
  };
}

abbrev lax : State (Server String)
lax = record { world = record (server "") { authorization_policy = some open_to_all }; events = [] }
