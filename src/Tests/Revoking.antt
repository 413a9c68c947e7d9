-- ===== src/Tests/Revoking.antt =====
-- The GCP plugin applied and revoked again.
use kubeflow_profile_control.Prelude.{String, ◌≡◌, refl, false, none, [], ◌∷◌, ◌==◌, if◌then◌else◌}
use kubeflow_profile_control.Api.Meta.{zero_meta}
use kubeflow_profile_control.Api.Access.{ServiceAccount}
use kubeflow_profile_control.Cluster.{Env, ok, Object, update_object, found, ◌>>◌}
use kubeflow_profile_control.Plugins.WorkloadIdentity.{
  Policy, binding_member, with_gcp_annotation, add_binding, revoke_binding, apply_plugin,
  revoke_plugin,
}
use kubeflow_profile_control.Plugins.WorkloadIdentity.Project.{
  get_project_id, get_project_id-account,
}
use kubeflow_profile_control.Plugins.WorkloadIdentity.Bindings.{grants, other_roles}
use kubeflow_profile_control.Plugins.WorkloadIdentity.Updates.{ReadsPolicy}
use kubeflow_profile_control.Plugins.WorkloadIdentity.RoundTrip.{
  Applies, revoke_plugin-apply_plugin,
}
use kubeflow_profile_control.Tests.Server.{alice}
use kubeflow_profile_control.Tests.Pairing.{policy, gcp, gcp_plugin, outside, editor_resource}

-- The editor account is there, with no annotation.
abbrev editor_account : ServiceAccount
editor_account = record {
  meta = record zero_meta { name = "default-editor"; namespace = "alice-ns" };
}

abbrev with_editor : Env Policy
with_editor = record outside {
  service_accounts = record {
    get = λ key w. (found editor_account, w);
    create = λ a w. (none, w);
    update = λ a w. (none, w);
  };
}

abbrev editor_member : String
editor_member = binding_member "" "demo-project" "alice-ns" "default-editor"

abbrev applied : Policy
applied = add_binding policy editor_member

project_found : get_project_id gcp_plugin.gcp_service_account ≡ ok "demo-project"
project_found = get_project_id-account "editor" "demo-project" refl refl refl

reads : (p : Policy) → ReadsPolicy gcp editor_resource p "" p p
reads p = record {
  after_client = p;
  after_service = p;
  after_credentials = p;
  client_made = refl;
  service_made = refl;
  credentials_found = refl;
  policy_read = refl;
}

applies :
    Applies with_editor gcp gcp_plugin alice "demo-project" "" project_found policy editor_account
      policy applied
applies = record {
  after_read = policy;
  after_annotation = policy;
  after_policy = policy;
  account_read = refl;
  account_written = refl;
  reads_policy = reads policy;
  policy_written = refl;
}

revoke_plugin-apply_plugin_example :
    let revoked = revoke_binding applied editor_member in
    ((apply_plugin with_editor gcp gcp_plugin alice
          >> revoke_plugin with_editor gcp gcp_plugin alice)
        (record { world = policy; events = [] })
      ≡ (
        ok tt,
        record {
          world = revoked;
          events =
              update_object (
                Object.service_account
                  (with_gcp_annotation editor_account gcp_plugin.gcp_service_account))
              ∷ [];
        },
      ))
    × (grants revoked "sa:bob"
        ≡ (if editor_member == "sa:bob" then false else grants policy "sa:bob"))
    × (other_roles revoked.bindings ≡ other_roles policy.bindings)
    × (revoked.etag ≡ applied.etag)
revoke_plugin-apply_plugin_example =
    revoke_plugin-apply_plugin with_editor gcp gcp_plugin alice "demo-project" "" project_found
      (record { world = policy; events = [] }) editor_account policy applied applied applied
      "sa:bob" applies (reads applied) refl
