-- ===== src/Plugins/WorkloadIdentity/RoundTrip.antt =====
-- `RevokePlugin` after `ApplyPlugin` of the GCP plugin.
use kubeflow_profile_control.Prelude.{
  String, ◌≡◌, refl, ap, ◌∙◌, false, none, ◌∷◌, ◌==◌, arith, if◌then◌else◌,
}
use kubeflow_profile_control.Api.Profile.{Profile}
use kubeflow_profile_control.Api.Access.{ServiceAccount}
use kubeflow_profile_control.Cluster.{Env, State, ok, Object, update_object, found, ◌>>◌}
use kubeflow_profile_control.Reconcile.Takeover.{ended}
use kubeflow_profile_control.Plugins.Iam.{default_editor}
use kubeflow_profile_control.Plugins.WorkloadIdentity.{
  GcpWorkloadIdentity, Policy, Gcp, sa_resource, binding_member, with_gcp_annotation, add_binding,
  revoke_binding, after_get_service_account, patch_annotation, apply_plugin, revoke_plugin,
}
use kubeflow_profile_control.Plugins.WorkloadIdentity.Project.{get_project_id}
use kubeflow_profile_control.Plugins.WorkloadIdentity.Bindings.{
  grants, grants_in, other_roles, add_binding-grants, revoke_binding-grants,
}
use kubeflow_profile_control.Plugins.WorkloadIdentity.Updates.{
  ReadsPolicy, update_workload_identity-sets,
}

module _ {World : Type 0} (env : Env World) (gcp : Gcp World) (plugin : GcpWorkloadIdentity)
    (profile : Profile) (project_id credentials_project : String)
    (parsed : get_project_id plugin.gcp_service_account ≡ ok project_id) where
  abbrev pub resource : String
  resource = sa_resource project_id plugin.gcp_service_account

  abbrev pub member : String
  member = binding_member credentials_project project_id profile.meta.name default_editor

  -- The calls of an `ApplyPlugin` that succeeds.
  pub record Applies (before : World) (sa : ServiceAccount) (policy : Policy) (after : World)
      : Type 0 where
    pub after_read : World
    pub after_annotation : World
    pub after_policy : World
    pub account_read :
        env.service_accounts.get
          (record { namespace = profile.meta.name; name = default_editor })
          before
        ≡ (found sa, after_read)
    pub account_written :
        env.service_accounts.update (with_gcp_annotation sa plugin.gcp_service_account) after_read
        ≡ (none, after_annotation)
    pub reads_policy :
        ReadsPolicy gcp resource after_annotation credentials_project policy after_policy
    pub policy_written :
        gcp.set_iam_policy resource (add_binding policy member) after_policy ≡ (none, after)

  apply_plugin-Applies :
      (s : State World) (sa : ServiceAccount) (policy : Policy) (after : World)
      → Applies s.world sa policy after
      → apply_plugin env gcp plugin profile s ≡ (
        ok tt,
        record {
          world = after;
          events =
              update_object
                (Object.service_account (with_gcp_annotation sa plugin.gcp_service_account))
              ∷ s.events;
        },
      )
  unfolding apply_plugin patch_annotation after_get_service_account
  apply_plugin-Applies s sa policy after a = rw a.account_read (
      rw a.account_written (
        update_workload_identity-sets env gcp plugin profile.meta.name default_editor add_binding
          project_id credentials_project policy (record { world = a.after_annotation; events = _ })
          a.after_policy parsed a.reads_policy
        ∙ rw a.policy_written refl))

  -- What is granted after both, if the policy that is read at last has the bindings that were
  -- written first.
  revoked-grants :
      (policy policy' : Policy) (t : String)
      → policy'.bindings ≡ (add_binding policy member).bindings
      → (grants (revoke_binding policy' member) t
          ≡ (if member == t then false else grants policy t))
        × (other_roles (revoke_binding policy' member).bindings ≡ other_roles policy.bindings)
  revoked-grants policy policy' t same =
      let (granted, others_added, _) = add_binding-grants policy member t in
      let (revoked, others_left, _) = revoke_binding-grants policy' member t in
      let read : grants policy' t ≡ grants (add_binding policy member) t =
        ap (λ bs. grants_in bs t) same in
      (ground arith, others_left ∙ ap other_roles same ∙ others_added)

  -- If the account's project is found, an `ApplyPlugin` whose calls succeed and then a
  -- `RevokePlugin` that reads the policy with the bindings that the first one wrote, and maybe a
  -- new tag, leave a policy in which the profile's editor account has no workload identity role,
  -- everybody else has it exactly if they had it at first, and the bindings of the other roles are
  -- the first ones; the second call writes once, with the tag that it read, and ends with the
  -- error of that write, if any. The annotation of the service account stays.
  pub revoke_plugin-apply_plugin :
      (s : State World) (sa : ServiceAccount) (policy policy' : Policy) (after w : World)
      (t : String)
      → Applies s.world sa policy after
      → ReadsPolicy gcp resource after credentials_project policy' w
      → policy'.bindings ≡ (add_binding policy member).bindings
      → let revoked = revoke_binding policy' member in
        let (e, w') = gcp.set_iam_policy resource revoked w in
        let annotated = with_gcp_annotation sa plugin.gcp_service_account in
        ((apply_plugin env gcp plugin profile >> revoke_plugin env gcp plugin profile) s ≡ (
          ended e,
          record {
            world = w';
            events = update_object (Object.service_account annotated) ∷ s.events;
          },
        ))
        × (grants revoked t ≡ (if member == t then false else grants policy t))
        × (other_roles revoked.bindings ≡ other_roles policy.bindings)
        × (revoked.etag ≡ policy'.etag)
  unfolding revoke_plugin revoke_binding
  revoke_plugin-apply_plugin s sa policy policy' after w t a reads same =
      let (granted, others) = revoked-grants policy policy' t same in
      (
        rw (apply_plugin-Applies s sa policy after a) (
            update_workload_identity-sets env gcp plugin profile.meta.name default_editor
              revoke_binding project_id credentials_project policy'
              (record { world = after; events = _ }) w parsed reads),
        granted,
        others,
        refl,
      )
