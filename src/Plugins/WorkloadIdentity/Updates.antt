-- ===== src/Plugins/WorkloadIdentity/Updates.antt =====
-- What the GCP plugin does to the policy of its service account.
use kubeflow_profile_control.Prelude.{String, ◌≡◌, none, arith, ◌⧺◌, ◌==◌, if◌then◌else◌}
use kubeflow_profile_control.Cluster.{Env, State, ok, found}
use kubeflow_profile_control.Reconcile.Takeover.{ended}
use kubeflow_profile_control.Plugins.WorkloadIdentity.{
  GcpWorkloadIdentity, Policy, Gcp, sa_resource, binding_member, update_policy, with_project,
  update_workload_identity,
}
use kubeflow_profile_control.Plugins.WorkloadIdentity.Project.{get_project_id}

-- The clients were made, the credentials' project was found, and the policy was read.
pub record ReadsPolicy {World : Type 0} (gcp : Gcp World) (resource : String) (before : World)
    (credentials_project : String) (policy : Policy) (after : World) : Type 0 where
  pub after_client : World
  pub after_service : World
  pub after_credentials : World
  pub client_made : gcp.default_client before ≡ (none, after_client)
  pub service_made : gcp.new_service after_client ≡ (none, after_service)
  pub credentials_found :
      gcp.find_default_credentials after_service ≡ (found credentials_project, after_credentials)
  pub policy_read : gcp.get_iam_policy resource after_credentials ≡ (found policy, after)

module _ {World : Type 0} (env : Env World) (gcp : Gcp World) where
  -- If the project of the account is found and its policy is read, `updateWorkloadIdentity`
  -- writes the changed policy of that account's resource once, for the member
  -- `serviceAccount:<project>.svc.id.goog[<namespace>/<account>]` of the credentials' project, or
  -- of the account's where that is empty, and ends with the error of that write, if any; it leaves no event of the
  -- cluster.
  pub update_workload_identity-sets :
      (plugin : GcpWorkloadIdentity) (namespace ksa : String) (f : Policy → String → Policy)
      (project_id credentials_project : String) (policy : Policy) (s : State World) (w : World)
      → get_project_id plugin.gcp_service_account ≡ ok project_id
      → ReadsPolicy gcp
          ("projects/" ⧺ (project_id ⧺ ("/serviceAccounts/" ⧺ plugin.gcp_service_account)))
          s.world
          credentials_project
          policy
          w
      → let ksa_project = if credentials_project == "" then project_id else credentials_project in
        let member =
          "serviceAccount:"
          ⧺ (ksa_project ⧺ (".svc.id.goog[" ⧺ (namespace ⧺ ("/" ⧺ (ksa ⧺ "]"))))) in
        let (e, w') =
          gcp.set_iam_policy
            ("projects/" ⧺ (project_id ⧺ ("/serviceAccounts/" ⧺ plugin.gcp_service_account)))
            (f policy member)
            w in
        update_workload_identity env gcp plugin namespace ksa f s
        ≡ (ended e, record { world = w'; events = s.events })
  unfolding update_workload_identity with_project update_policy sa_resource binding_member
  update_workload_identity-sets plugin namespace ksa f project_id credentials_project policy s w h
        r =
      rw h (
        rw r.client_made
          (rw r.service_made (rw r.credentials_found (rw r.policy_read (ground arith)))))
