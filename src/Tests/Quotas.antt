-- ===== src/Tests/Quotas.antt =====
-- A profile's quota on a server that has none.
use kubeflow_profile_control.Prelude.{String, none, some, [], ◌∷◌}
use kubeflow_profile_control.Api.Meta.{zero_meta}
use kubeflow_profile_control.Api.Access.{ResourceQuota}
use kubeflow_profile_control.Cluster.{State}
use kubeflow_profile_control.Tests.Server.{Server, server, owned_by, alice}

abbrev want : ResourceQuota
want = record {
  meta = record zero_meta { name = "kf-resource-quota"; namespace = "alice-ns" };
  spec = record { hard = some (("cpu", "4") ∷ []); scopes = none; scope_selector = none };
}

abbrev empty : State (Server String)
empty = record { world = server ""; events = [] }

abbrev created : ResourceQuota
created = record want { meta = owned_by alice want.meta }

-- The server has given the quota a version.
abbrev versioned : ResourceQuota
versioned = record created { meta = record created.meta { resource_version = "7" } }

abbrev later : State (Server String)
later = record { world = record (server "") { resource_quota = some versioned }; events = [] }
