-- ===== src/Tests/Keeping.antt =====
-- The create-or-update methods at a server's role binding and request authentication.
use kubeflow_profile_control.Prelude.{
  String, ◌≡◌, ◌≢◌, ◌↔◌, refl, true, Option, some, List, [], ◌∷◌, arith, eq_iff, All,
}
use kubeflow_profile_control.Prelude.Dict.{Dict, lookup, deep_equal, deep_equal_iff}
use kubeflow_profile_control.Api.Meta.{ObjectMeta, OwnerReference, zero_meta}
use kubeflow_profile_control.Api.Access.{RoleBinding, RequestAuthentication}
use kubeflow_profile_control.Cluster.{State, ok, Object, update_object}
use kubeflow_profile_control.Managed.{
  request_authentication_for, update_istio_request_authentication,
}
use kubeflow_profile_control.Managed.Equal.{subjects_equal, subjects_equal_iff}
use kubeflow_profile_control.Managed.Grants.{IsGrant, update_service_account-IsGrant}
use kubeflow_profile_control.Managed.{update_service_account}
use kubeflow_profile_control.Managed.Established.{request_authentication_rewritten}
use kubeflow_profile_control.Tests.Server.{setter, Server, server, env, alice}

abbrev by_alice : List OwnerReference
by_alice =
    record {
      api_version = "kubeflow.org/v2alpha1";
      kind = "Profile";
      name = "alice-ns";
      uid = "42";
      controller = true;
    }
    ∷ []

abbrev want : RoleBinding
want = record {
  meta = record zero_meta { name = "default-editor"; namespace = "alice-ns" };
  role_ref = record {
    api_group = "rbac.authorization.k8s.io";
    kind = "ClusterRole";
    name = "edit";
  };
  subjects =
      record {
        kind = "ServiceAccount";
        api_group = "";
        name = "default-editor";
        namespace = "alice-ns";
      }
      ∷ [];
}

-- The same for another role.
abbrev stale : RoleBinding
stale = record want {
  role_ref = record {
    api_group = "rbac.authorization.k8s.io";
    kind = "ClusterRole";
    name = "view";
  };
}

abbrev holding : Option RoleBinding → State (Server String)
holding rb = record { world = record (server "") { role_binding = rb }; events = [] }

abbrev owned : ObjectMeta
owned = record want.meta { owner_references = by_alice }

-- What the run leaves, as the server keeps it: with a version.
abbrev versioned : RoleBinding
versioned = record want { meta = record owned { resource_version = "7" } }

-- The request authentication as a server keeps it: with a resource version.
abbrev kept : RequestAuthentication
kept =
    let wanted = request_authentication_for alice "https://idp" "https://idp/keys" in
    record wanted { meta = record wanted.meta { resource_version = "7" } }

abbrev keeping : State (Server String)
keeping = record { world = record (server "") { request_authentication = some kept }; events = [] }

abbrev owned_request_authentication : ObjectMeta
owned_request_authentication =
    record (request_authentication_for alice "https://idp" "https://idp/keys").meta {
      owner_references =
          record {
            api_version = "kubeflow.org/v2alpha1";
            kind = "Profile";
            name = "alice-ns";
            uid = "42";
            controller = true;
          }
          ∷ (request_authentication_for alice "https://idp"
              "https://idp/keys").meta.owner_references;
    }

no_version : owned_request_authentication.resource_version ≢ kept.meta.resource_version
unfolding request_authentication_for
no_version = ground (arith, eq_iff "" "7")

request_authentication_rewritten_example :
    update_istio_request_authentication env alice "https://idp" "https://idp/keys" keeping ≡ (
      ok tt,
      record {
        world = record (server "") { request_authentication = some kept };
        events = update_object (Object.request_authentication kept) ∷ [];
      },
    )
request_authentication_rewritten_example =
    request_authentication_rewritten env alice "https://idp" "https://idp/keys"
      owned_request_authentication kept keeping refl refl no_version

abbrev one : Dict String
one = ("a", "1") ∷ []

abbrev two : Dict String
two = ("a", "2") ∷ []

deep_equal_iff_example : (deep_equal one two ≡ true) ↔ ((k : String) → lookup k one ≡ lookup k two)
deep_equal_iff_example = deep_equal_iff one two

subjects_equal_iff_example :
    (subjects_equal want.subjects stale.subjects ≡ true) ↔ (want.subjects ≡ stale.subjects)
subjects_equal_iff_example = subjects_equal_iff want.subjects stale.subjects

update_service_account-IsGrant_example :
    All
      (IsGrant alice "default-editor" "edit")
      (update_service_account env alice "default-editor" "edit" "12"
        (holding (some stale))).1.events
update_service_account-IsGrant_example =
    update_service_account-IsGrant env alice "default-editor" "edit" setter "12"
      (holding (some stale)) refl
