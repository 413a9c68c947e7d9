-- ===== src/Tests/Pairing.antt =====
-- The GCP plugin at a service account's policy, and the plugins of a profile.
use kubeflow_profile_control.Prelude.{
  String, ◌≡◌, refl, sym, ap, ◌∙◌, true, none, some, List, [], ◌∷◌,
}
use kubeflow_profile_control.Api.Profile.{Plugin, Profile}
use kubeflow_profile_control.Cluster.{ok, found, failed, Env, ObjectClient, Object, update_object}
use kubeflow_profile_control.Plugins.WorkloadIdentity.{
  Policy, Gcp, GcpWorkloadIdentity, sa_resource, update_workload_identity, workload_identity_role,
  add_binding,
}
use kubeflow_profile_control.Plugins.WorkloadIdentity.Confined.{
  KeptByClients, KeptByPolicy, update_workload_identity-keeps,
}
use kubeflow_profile_control.Plugins.WorkloadIdentity.Bindings.{other_roles, add_binding-grants}
use kubeflow_profile_control.Plugins.WorkloadIdentity.Updates.{
  ReadsPolicy, update_workload_identity-sets,
}
use kubeflow_profile_control.Plugins.WorkloadIdentity.Project.{
  get_project_id, get_project_id-account,
}
use kubeflow_profile_control.Plugins.Specs.{
  kind_workload_identity, workload_identity, get_plugin_spec, patch_default_plugin_spec,
}
use kubeflow_profile_control.Plugins.Specs.Laws.{kinds_of, known, get_plugin_spec-kinds}
use kubeflow_profile_control.Plugins.Specs.Patched.{
  with_default, with_plugins, patch_default_plugin_spec-patches,
}
use kubeflow_profile_control.Tests.Server
use kubeflow_profile_control.Tests.Server.{not_found, server, alice, found-inj}
use kubeflow_profile_control.Tests.Reconciling.{fresh}
use kubeflow_profile_control.Tests.Text.{yaml}

abbrev pub policy : Policy
policy = record {
  bindings =
      record { role = "roles/viewer"; members = "user:bob" ∷ [] }
      ∷ record { role = workload_identity_role; members = "sa:bob" ∷ "sa:bob" ∷ [] }
      ∷ [];
  etag = "v1";
}

get_project_id-account_example :
    get_project_id "editor@demo-project.iam.gserviceaccount.com" ≡ ok "demo-project"
get_project_id-account_example = get_project_id-account "editor" "demo-project" refl refl refl

abbrev plugins : List Plugin
plugins =
    record { kind = "Unheard"; spec = none }
    ∷ record { kind = kind_workload_identity; spec = some "editor@demo-project" }
    ∷ []

plugins_read :
    get_plugin_spec yaml plugins
    ≡ found (workload_identity (record { gcp_service_account = "editor@demo-project" }) ∷ [])
unfolding get_plugin_spec
plugins_read = refl

get_plugin_spec-kinds_example :
    kinds_of (workload_identity (record { gcp_service_account = "editor@demo-project" }) ∷ [])
    ≡ known plugins
get_plugin_spec-kinds_example = get_plugin_spec-kinds yaml plugins _ plugins_read

-- Alice has no plugin, and the controller has an identity.
abbrev patched : Profile
patched = with_plugins alice (with_default "sa@p" [])

patch_default_plugin_spec-patches_example :
    (patch_default_plugin_spec (Server.env {Text = String}) "sa@p" alice fresh ≡ (
      ok tt,
      record {
        world = record (server "") { profile = some patched };
        events = update_object (Object.profile patched) ∷ [];
      },
    ))
    × (patch_default_plugin_spec (Server.env {Text = String}) "sa@p" patched fresh ≡ (
      ok tt,
      record {
        world = record (server "") { profile = some patched };
        events = update_object (Object.profile patched) ∷ [];
      },
    ))
patch_default_plugin_spec-patches_example =
    patch_default_plugin_spec-patches Server.env "sa@p" alice fresh fresh

-- Google's side of a server: one policy, which is read and, at a write, taken as it is.
abbrev pub gcp : Gcp Policy
gcp = record {
  default_client = λ w. (none, w);
  new_service = λ w. (none, w);
  find_default_credentials = λ w. (found "", w);
  get_iam_policy = λ resource w. (found w, w);
  set_iam_policy = λ resource p w. (none, p);
}

abbrev pub gcp_plugin : GcpWorkloadIdentity
gcp_plugin = record { gcp_service_account = "editor@demo-project.iam.gserviceaccount.com" }

abbrev pub editor_resource : String
editor_resource = sa_resource "demo-project" gcp_plugin.gcp_service_account

reads_policy : ReadsPolicy gcp editor_resource policy "" policy policy
reads_policy = record {
  after_client = policy;
  after_service = policy;
  after_credentials = policy;
  client_made = refl;
  service_made = refl;
  credentials_found = refl;
  policy_read = refl;
}

abbrev no_cluster : {A : Type 0} → ObjectClient Policy A
no_cluster = record {
  get = λ key w. (failed not_found, w);
  create = λ a w. (some not_found, w);
  update = λ a w. (some not_found, w);
}

abbrev pub outside : Env Policy
outside = record {
  profiles = no_cluster;
  configs = no_cluster;
  namespaces = no_cluster;
  service_accounts = no_cluster;
  role_bindings = no_cluster;
  resource_quotas = no_cluster;
  request_authentications = no_cluster;
  authorization_policies = no_cluster;
  list_profiles = λ w. (failed not_found, w);
  is_not_found = λ e. true;
  set_controller_reference = λ p m. found m;
  retry = λ n op. op;
}

update_workload_identity-sets_example :
    update_workload_identity outside gcp gcp_plugin "alice-ns" "default-editor" add_binding
      (record { world = policy; events = [] })
    ≡ (
      ok tt,
      record {
        world =
            add_binding policy "serviceAccount:demo-project.svc.id.goog[alice-ns/default-editor]";
        events = [];
      },
    )
unfolding sa_resource
update_workload_identity-sets_example =
    update_workload_identity-sets outside gcp gcp_plugin "alice-ns" "default-editor" add_binding
      "demo-project" "" policy (record { world = policy; events = [] }) policy
      (get_project_id-account "editor" "demo-project" refl refl refl) reads_policy

-- The policy has the other roles' bindings that it had first.
abbrev SameOtherRoles : Policy → Type 0
SameOtherRoles w = other_roles w.bindings ≡ other_roles policy.bindings

kept_by_clients : KeptByClients gcp SameOtherRoles
kept_by_clients = record { client = λ w h. h; service = λ w h. h; credentials = λ w h. h }

kept_by_policy :
    KeptByPolicy gcp "editor@demo-project.iam.gserviceaccount.com" "alice-ns" "default-editor"
      add_binding SameOtherRoles
kept_by_policy = record {
  read = λ project_id w named h. h;
  written = λ project_id project q w named h e.
      let same : w ≡ q = found-inj w q e in
      (add_binding-grants q _ "").1 ∙ ap (λ (x : Policy). other_roles x.bindings) (sym same) ∙ h;
}

update_workload_identity-keeps_example :
    SameOtherRoles
      (update_workload_identity outside gcp gcp_plugin "alice-ns" "default-editor" add_binding
        (record { world = policy; events = [] })).1.world
    × ((update_workload_identity outside gcp gcp_plugin "alice-ns" "default-editor" add_binding
          (record { world = policy; events = [] })).1.events
        ≡ [])
update_workload_identity-keeps_example =
    update_workload_identity-keeps outside gcp gcp_plugin "alice-ns" "default-editor" add_binding
      SameOtherRoles kept_by_clients kept_by_policy (record { world = policy; events = [] }) refl
