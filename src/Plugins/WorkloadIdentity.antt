-- ===== src/Plugins/WorkloadIdentity.antt =====
-- `GcpWorkloadIdentity` of plugin_workload_identity.go. Google's clients are the parameter `Gcp`.
pub mod Project
pub mod Bindings
pub mod Updates
pub mod Confined
pub mod RoundTrip
use kubeflow_profile_control.Prelude.{
  String, Option, none, some, List, [], ◌∷◌, ◌++◌, ◌==◌, ◌⧺◌, if◌then◌else◌,
}
use kubeflow_profile_control.Prelude.Dict.{Dict, insert}
use kubeflow_profile_control.Slices.{remove_string}
use kubeflow_profile_control.Api.Meta.{ObjectMeta}
use kubeflow_profile_control.Api.Profile.{Profile}
use kubeflow_profile_control.Api.Access.{ServiceAccount}
use kubeflow_profile_control.Cluster.{
  Env, Act, State, Outcome, ok, err, panic, Error, Object, Reply, found, failed, pure, fail, crash,
  get, update, perform, return_error, ◌>>=◌, ◌>>◌,
}
use kubeflow_profile_control.Plugins.Iam.{default_editor, with_annotations}
use Project.{get_project_id}

abbrev pub gcp_annotation_key : String
gcp_annotation_key = "iam.gke.io/gcp-service-account"

abbrev pub workload_identity_role : String
workload_identity_role = "roles/iam.workloadIdentityUser"

pub record GcpWorkloadIdentity : Type 0 where
  pub gcp_service_account : String

-- `iam.Binding` and `iam.Policy`: the fields in use, and the tag that a policy is read with.
pub record Binding : Type 0 where
  pub role : String
  pub members : List String

pub record Policy : Type 0 where
  pub bindings : List Binding
  pub etag : String

unfoldable pub add_binding : Policy → String → Policy
add_binding policy member = record policy {
  bindings =
      policy.bindings ++ record { role = workload_identity_role; members = member ∷ [] } ∷ [];
}

-- The bindings are pointers to distinct structs, each of which the loop visits once.
unfoldable pub revoke_members : List Binding → String → List Binding
unfolding remove_string
revoke_members [] member = []
revoke_members (binding ∷ bindings) member =
    let rest = revoke_members bindings member in
    if binding.role == workload_identity_role
    then record binding { members = remove_string binding.members member } ∷ rest
    else binding ∷ rest

unfoldable pub revoke_binding : Policy → String → Policy
unfolding revoke_members
revoke_binding policy member = record policy { bindings = revoke_members policy.bindings member }

-- `google.DefaultClient`, `iam.New`, `google.FindDefaultCredentials` (the project's name), and the
-- reads and writes of a service account's policy.
pub record Gcp (World : Type 0) : Type 0 where
  pub default_client : World → Option Error × World
  pub new_service : World → Option Error × World
  pub find_default_credentials : World → Reply String × World
  pub get_iam_policy : String → World → Reply Policy × World
  pub set_iam_policy : String → Policy → World → Option Error × World

unfoldable pub with_gcp_annotation : ServiceAccount → String → ServiceAccount
unfolding with_annotations
with_gcp_annotation sa gcp_service_account = elim sa.meta.annotations [
  | none ↦ with_annotations sa (some ((gcp_annotation_key, gcp_service_account) ∷ []))
  | some annotations ↦
      with_annotations sa (some (insert gcp_annotation_key gcp_service_account annotations))
]

unfoldable pub sa_resource : String → String → String
sa_resource project_id gcp_sa = "projects/" ⧺ (project_id ⧺ ("/serviceAccounts/" ⧺ gcp_sa))

-- The project of the credentials, or that of the GCP service account where it is empty.
unfoldable pub binding_member : String → String → String → String → String
binding_member credentials_project project_id namespace ksa =
    let ksa_project = if credentials_project == "" then project_id else credentials_project in
    "serviceAccount:" ⧺ (ksa_project ⧺ (".svc.id.goog[" ⧺ (namespace ⧺ ("/" ⧺ (ksa ⧺ "]")))))

module _ {World : Type 0} (env : Env World) (gcp : Gcp World) where
  after_get_service_account : String → Reply ServiceAccount → Act World (Unit {0})
  unfolding with_gcp_annotation
  after_get_service_account gcp_service_account (failed e) = fail e
  after_get_service_account gcp_service_account (found sa) = do
    e ←
        update env.service_accounts Object.service_account
          (with_gcp_annotation sa gcp_service_account)
    return_error e

  unfoldable pub patch_annotation : GcpWorkloadIdentity → String → String → Act World (Unit {0})
  unfolding after_get_service_account
  patch_annotation plugin namespace ksa = do
    r ← get env.service_accounts (record { namespace = namespace; name = ksa })
    after_get_service_account plugin.gcp_service_account r

  -- `if err != nil { return err }`
  abbrev on_success : {A : Type 0} → Reply A → (A → Act World (Unit {0})) → Act World (Unit {0})
  on_success (failed e) f = fail e
  on_success (found a) f = f a

  abbrev unless_error : Option Error → Act World (Unit {0}) → Act World (Unit {0})
  unless_error (some e) m = fail e
  unless_error none m = m

  set_policy : String → (Policy → String → Policy) → String → Policy → Act World (Unit {0})
  set_policy resource f member current = do
    e ← perform (gcp.set_iam_policy resource (f current member))
    return_error e

  -- From "Get policy" on, with the credentials' project.
  update_policy :
      String → String → String → String → (Policy → String → Policy) → String → Act World (Unit {0})
  unfolding set_policy binding_member
  update_policy resource project_id namespace ksa f credentials_project = do
    r ← perform (gcp.get_iam_policy resource)
    on_success r
        (set_policy resource f (binding_member credentials_project project_id namespace ksa))

  with_project :
      GcpWorkloadIdentity
      → String
      → String
      → (Policy → String → Policy)
      → Outcome String
      → Act World (Unit {0})
  unfolding update_policy sa_resource
  with_project plugin namespace ksa f panic = crash
  with_project plugin namespace ksa f (err e) = fail e
  with_project plugin namespace ksa f (ok project_id) = do
    e ← perform gcp.default_client
    unless_error e (do
      e' ← perform gcp.new_service
      unless_error e' (do
        r ← perform gcp.find_default_credentials
        on_success r (
            update_policy (sa_resource project_id plugin.gcp_service_account) project_id namespace
              ksa f)))

  unfoldable pub update_workload_identity :
      GcpWorkloadIdentity → String → String → (Policy → String → Policy) → Act World (Unit {0})
  unfolding with_project get_project_id
  update_workload_identity plugin namespace ksa f =
      with_project plugin namespace ksa f (get_project_id plugin.gcp_service_account)

  unfoldable pub apply_plugin : GcpWorkloadIdentity → Profile → Act World (Unit {0})
  unfolding patch_annotation update_workload_identity add_binding
  apply_plugin plugin profile = do
    patch_annotation plugin profile.meta.name default_editor
    update_workload_identity plugin profile.meta.name default_editor add_binding

  unfoldable pub revoke_plugin : GcpWorkloadIdentity → Profile → Act World (Unit {0})
  unfolding update_workload_identity revoke_binding
  revoke_plugin plugin profile =
      update_workload_identity plugin profile.meta.name default_editor revoke_binding
