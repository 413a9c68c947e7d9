-- ===== src/Managed/Grants.antt =====
-- What `updateServiceAccount` writes, whatever the API server answers.
use kubeflow_profile_control.Prelude.{String, ◌≡◌, refl, [], ◌∷◌, arith, All}
use kubeflow_profile_control.Api.Meta.{ObjectMeta}
use kubeflow_profile_control.Api.Profile.{Profile}
use kubeflow_profile_control.Api.Access.{ServiceAccount, RoleBinding}
use kubeflow_profile_control.Cluster.{
  Env, ObjectClient, Act, State, Error, Object, Event, create_object, update_object, Reply, found,
  failed,
}
use kubeflow_profile_control.Cluster.Keeps.{IsReferenceSetter, Emits, Keeps, Keeps-bind}
use kubeflow_profile_control.Managed.{
  key_of, create_if_missing, service_account_for, role_binding_for, sync_service_account,
  service_account_with, sync_role_binding, role_binding_with, update_role_binding,
  update_service_account,
}

-- A role binding of the role to the service account of the profile's namespace, and to nobody else.
abbrev pub IsBound : Profile → String → String → RoleBinding → Type 0
IsBound profile sa_name cluster_role_name rb =
    (rb.role_ref ≡ record {
      api_group = "rbac.authorization.k8s.io";
      kind = "ClusterRole";
      name = cluster_role_name;
    })
    × (rb.subjects
        ≡ record {
          kind = "ServiceAccount";
          api_group = "";
          name = sa_name;
          namespace = profile.meta.name;
        }
          ∷ [])

abbrev pub IsGrant : Profile → String → String → Event → Type 0
IsGrant profile sa_name cluster_role_name (create_object (Object.service_account sa)) =
    (sa.meta.name ≡ sa_name) × (sa.meta.namespace ≡ profile.meta.name)
IsGrant profile sa_name cluster_role_name (create_object (Object.role_binding rb)) =
    (rb.meta.name ≡ sa_name)
    × (rb.meta.namespace ≡ profile.meta.name)
    × IsBound profile sa_name cluster_role_name rb
IsGrant profile sa_name cluster_role_name (update_object (Object.role_binding rb)) =
    IsBound profile sa_name cluster_role_name rb
IsGrant profile sa_name cluster_role_name _ = ⊥

module _ {World : Type 0} (env : Env World) (profile : Profile)
    (sa_name cluster_role_name : String) where
  abbrev Grants : {A : Type 0} → Act World A → Type 0
  Grants = Keeps (Emits (IsGrant profile sa_name cluster_role_name))

  Grants-create_if_missing :
      {A : Type 0} (client : ObjectClient World A) (kind : A → Object) (a : A) (e : Error)
      → IsGrant profile sa_name cluster_role_name (create_object (kind a))
      → Grants (create_if_missing env client kind a e)
  unfolding create_if_missing
  Grants-create_if_missing client kind a e k s h = ground arith

  Grants-sync_service_account :
      (want : ServiceAccount) (r : Reply ServiceAccount)
      → IsGrant profile sa_name cluster_role_name (create_object (Object.service_account want))
      → Grants (sync_service_account env want r)
  unfolding sync_service_account
  Grants-sync_service_account want (failed e) k =
      Grants-create_if_missing env.service_accounts Object.service_account want e k
  Grants-sync_service_account want (found _) k = λ s h. h

  Grants-sync_role_binding :
      (want : RoleBinding) (r : Reply RoleBinding)
      → IsGrant profile sa_name cluster_role_name (create_object (Object.role_binding want))
      → Grants (sync_role_binding env want r)
  unfolding sync_role_binding
  Grants-sync_role_binding want (failed e) k =
      Grants-create_if_missing env.role_bindings Object.role_binding want e k
  Grants-sync_role_binding want (found old) k = λ s h. ground arith

  module _ (setter : IsReferenceSetter env) where
    Grants-service_account_with :
        (aws_account_id : String) (r : Reply ObjectMeta)
        → env.set_controller_reference profile
            (service_account_for profile sa_name aws_account_id).meta
          ≡ r
        → Grants (service_account_with env (service_account_for profile sa_name aws_account_id) r)
    unfolding service_account_with service_account_for
    Grants-service_account_with aws_account_id (failed e) set s h = h
    Grants-service_account_with aws_account_id (found m) set s h =
        Grants-sync_service_account
          (record (service_account_for profile sa_name aws_account_id) { meta = m })
          (env.service_accounts.get (key_of m) s.world).0
          (setter.keeps_name profile _ m set, setter.keeps_namespace profile _ m set)
          (record s { world = (env.service_accounts.get (key_of m) s.world).1 }) h

    Grants-role_binding_with :
        (r : Reply ObjectMeta)
        → env.set_controller_reference profile
            (role_binding_for profile sa_name cluster_role_name).meta
          ≡ r
        → Grants (role_binding_with env (role_binding_for profile sa_name cluster_role_name) r)
    unfolding role_binding_with role_binding_for
    Grants-role_binding_with (failed e) set s h = h
    Grants-role_binding_with (found m) set s h =
        Grants-sync_role_binding
          (record (role_binding_for profile sa_name cluster_role_name) { meta = m })
          (env.role_bindings.get (key_of m) s.world).0
          (setter.keeps_name profile _ m set, setter.keeps_namespace profile _ m set, (refl, refl))
          (record s { world = (env.role_bindings.get (key_of m) s.world).1 }) h

    Grants-update_role_binding :
        Grants
          (update_role_binding env profile (role_binding_for profile sa_name cluster_role_name))
    unfolding update_role_binding
    Grants-update_role_binding = Grants-role_binding_with _ refl

    -- Whatever the API server answers, `updateServiceAccount` writes nothing but these: a creation
    -- of the named service account in the profile's namespace; and a creation, under that name and
    -- in that namespace, or an update of a role binding that binds the given cluster role to that
    -- service account alone. It never writes a service account that is there; started with no
    -- event.
    pub update_service_account-IsGrant :
        (aws_account_id : String) (s : State World)
        → s.events ≡ []
        → All
            (IsGrant profile sa_name cluster_role_name)
            (update_service_account env profile sa_name cluster_role_name aws_account_id s).1.events
    unfolding update_service_account
    update_service_account-IsGrant aws_account_id s none_yet =
        Keeps-bind (Emits (IsGrant profile sa_name cluster_role_name))
          (service_account_with env (service_account_for profile sa_name aws_account_id) (
            env.set_controller_reference profile
              (service_account_for profile sa_name aws_account_id).meta))
          (λ _.
            update_role_binding env profile (role_binding_for profile sa_name cluster_role_name))
          (Grants-service_account_with aws_account_id _ refl) (λ _. Grants-update_role_binding) s
          (rw none_yet tt)
