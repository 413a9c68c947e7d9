-- ===== src/Plugins/WorkloadIdentity/Confined.antt =====
-- What the GCP plugin may change on Google's side, whatever the calls answer.
use kubeflow_profile_control.Prelude.{
  String, ◌≡◌, refl, inl, inr, arith, Option-cases, ◌⧺◌, ◌==◌, if◌then◌else◌,
}
use kubeflow_profile_control.Cluster.{State, Outcome, Env, ok, err, panic, found}
use kubeflow_profile_control.Cluster.Keeps.{Reply-cases}
use kubeflow_profile_control.Plugins.WorkloadIdentity.{
  GcpWorkloadIdentity, Policy, Gcp, sa_resource, binding_member, update_policy, with_project,
  update_workload_identity,
}
use kubeflow_profile_control.Plugins.WorkloadIdentity.Project.{get_project_id}

-- The making of the clients and the finding of the credentials leave something of the world as it
-- is.
pub record KeptByClients {World : Type 0} (gcp : Gcp World) (P : World → Type 0) : Type 0 where
  pub client : (w : World) → P w → P (gcp.default_client w).1
  pub service : (w : World) → P w → P (gcp.new_service w).1
  pub credentials : (w : World) → P w → P (gcp.find_default_credentials w).1

-- So do the reading of the account's policy, and the writing of the policy that was just read as
-- `f` changes it for the member, whatever the project of the credentials is.
pub record KeptByPolicy {World : Type 0} (gcp : Gcp World) (account namespace ksa : String)
    (f : Policy → String → Policy) (P : World → Type 0) : Type 0 where
  pub read :
      (project_id : String) (w : World)
      → get_project_id account ≡ ok project_id
      → P w
      → P (gcp.get_iam_policy ("projects/" ⧺ (project_id ⧺ ("/serviceAccounts/" ⧺ account))) w).1
  pub written :
      (project_id project : String) (policy : Policy) (w : World)
      → get_project_id account ≡ ok project_id
      → P w
      → let resource = "projects/" ⧺ (project_id ⧺ ("/serviceAccounts/" ⧺ account)) in
        (gcp.get_iam_policy resource w).0 ≡ found policy
        → P
            (gcp.set_iam_policy resource
              (f policy (
                "serviceAccount:"
                ⧺ (project ⧺ (".svc.id.goog[" ⧺ (namespace ⧺ ("/" ⧺ (ksa ⧺ "]")))))))
              (gcp.get_iam_policy resource w).1).1

module _ {World : Type 0} (env : Env World) (gcp : Gcp World) (plugin : GcpWorkloadIdentity)
    (namespace ksa : String) (f : Policy → String → Policy) (P : World → Type 0) where
  abbrev Held : State World → State World → Type 0
  Held s t = P t.world × (t.events ≡ s.events)

  update_policy-Held :
      (project_id credentials_project : String) (s : State World)
      → get_project_id plugin.gcp_service_account ≡ ok project_id
      → KeptByPolicy gcp plugin.gcp_service_account namespace ksa f P
      → P s.world
      → Held s
          (update_policy env gcp
            (sa_resource project_id plugin.gcp_service_account)
            project_id
            namespace
            ksa
            f
            credentials_project
            s).1
  unfolding update_policy sa_resource binding_member
  update_policy-Held project_id credentials_project s named kept h =
      let resource =
        "projects/" ⧺ (project_id ⧺ ("/serviceAccounts/" ⧺ plugin.gcp_service_account)) in
      let ksa_project = if credentials_project == "" then project_id else credentials_project in
      let read = kept.read project_id s.world named h in
      elim (Reply-cases (gcp.get_iam_policy resource s.world).0) [
        | inl (policy, e) ↦
            let written = kept.written project_id ksa_project policy s.world named h e in
            rw e (ground arith)
        | inr (e, q) ↦ rw q (read, refl)
      ]

  with_project-Held :
      (r : Outcome String) (s : State World)
      → get_project_id plugin.gcp_service_account ≡ r
      → KeptByClients gcp P
      → KeptByPolicy gcp plugin.gcp_service_account namespace ksa f P
      → P s.world
      → Held s (with_project env gcp plugin namespace ksa f r s).1
  unfolding with_project
  with_project-Held panic s named clients kept h = (h, refl)
  with_project-Held (err e) s named clients kept h = (h, refl)
  with_project-Held (ok project_id) s named clients kept h =
      let w₁ = (gcp.default_client s.world).1 in
      let h₁ = clients.client s.world h in
      let h₂ = clients.service w₁ h₁ in
      let w₂ = (gcp.new_service w₁).1 in
      let h₃ = clients.credentials w₂ h₂ in
      let w₃ = (gcp.find_default_credentials w₂).1 in
      elim (Option-cases (gcp.default_client s.world).0) [
        | inr (a, e) ↦ rw e (h₁, refl)
        | inl e ↦ elim (Option-cases (gcp.new_service w₁).0) [
          | inr (a, e') ↦ rw e (rw e' (h₂, refl))
          | inl e' ↦ elim (Reply-cases (gcp.find_default_credentials w₂).0) [
            | inr (a, e'') ↦ rw e (rw e' (rw e'' (h₃, refl)))
            | inl (project, e'') ↦ rw e (
                rw e' (
                  rw e'' (
                    update_policy-Held project_id project (record { world = w₃; events = s.events })
                      named kept h₃)))
          ]
        ]
      ]

  -- Whatever the calls answer, and whether or not the project of the account is found,
  -- `updateWorkloadIdentity` changes nothing that these calls do not change: the making of the
  -- clients, the finding of the credentials, the read of the policy of the account's own resource,
  -- and the write to that resource of the policy that was just read, as it is changed for a member
  -- of the given namespace and service account. It leaves no event of the cluster.
  pub update_workload_identity-keeps :
      KeptByClients gcp P
      → KeptByPolicy gcp plugin.gcp_service_account namespace ksa f P
      → (s : State World) → P s.world
      → P (update_workload_identity env gcp plugin namespace ksa f s).1.world
        × ((update_workload_identity env gcp plugin namespace ksa f s).1.events ≡ s.events)
  unfolding update_workload_identity
  update_workload_identity-keeps clients kept s h =
      with_project-Held (get_project_id plugin.gcp_service_account) s refl clients kept h
