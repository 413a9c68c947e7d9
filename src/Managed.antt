-- ===== src/Managed.antt =====
-- The create-or-update methods of controllers/kubeflow.org/profile_controller.go:
-- `updateIstioRequestAuthentication`, `updateIstioAuthorizationPolicy`, `updateResourceQuota`,
-- `updateServiceAccount` and `updateRoleBinding`. `Reconcile` has its calls of them commented out.
pub mod Equal
mod Policy
pub mod Established
pub mod Quota
pub mod Authorization
pub mod Grants
unfoldable pub use Policy.{get_authorization_policy}
use kubeflow_profile_control.Prelude.{
  String, Option, none, some, List, [], ◌∷◌, ◌⧺◌, ◌&&◌, if◌then◌else◌,
}
use kubeflow_profile_control.Api.Meta.{NamespacedName, ObjectMeta, Subject, zero_meta}
use kubeflow_profile_control.Api.Profile.{Profile}
use kubeflow_profile_control.Api.Access.{
  ServiceAccount, RoleBinding, ResourceQuota, RequestAuthentication, AuthorizationPolicy,
}
use kubeflow_profile_control.Cluster.{
  Env, ObjectClient, Act, Error, Object, Reply, found, failed, pure, fail, get, create, update,
  return_error, ◌>>=◌, ◌>>◌,
}
use Equal.{
  request_authentication_equal, authorization_policy_equal, resource_quota_spec_equal,
  role_ref_equal, subjects_equal,
}

abbrev pub authz_policy_istio : String
authz_policy_istio = "ns-owner-access-istio"

abbrev pub request_auth_istio : String
request_auth_istio = "kubeflow-request-auth"

-- The annotations that the kfam API reads.
abbrev pub user : String
user = "user"

abbrev pub role : String
role = "role"

abbrev pub admin : String
admin = "admin"

abbrev key_of : ObjectMeta → NamespacedName
key_of meta = record { namespace = meta.namespace; name = meta.name }

unfoldable pub request_authentication_for : Profile → String → String → RequestAuthentication
request_authentication_for profile oidc_issuer jwks_uri = record {
  meta = record zero_meta { name = request_auth_istio; namespace = profile.meta.name };
  spec = record {
    selector = none;
    jwt_rules = record { issuer = oidc_issuer; jwks_uri = jwks_uri } ∷ [];
  };
}

unfoldable pub authorization_policy_for : Profile → String → String → AuthorizationPolicy
unfolding get_authorization_policy
authorization_policy_for profile user_id_prefix oidc_issuer = record {
  meta = record zero_meta {
    annotations = some ((user, profile.spec.owner.name) ∷ (role, admin) ∷ []);
    name = authz_policy_istio;
    namespace = profile.meta.name;
  };
  spec = get_authorization_policy profile user_id_prefix oidc_issuer;
}

unfoldable pub service_account_for : Profile → String → String → ServiceAccount
service_account_for profile sa_name aws_account_id = record {
  meta = record zero_meta {
    name = sa_name;
    namespace = profile.meta.name;
    annotations = some (
        (
          "eks.amazonaws.com/role-arn",
          "arn:aws:iam::"
              ⧺ (aws_account_id ⧺ (":role/kubeflow-assumable-role-ns-" ⧺ profile.meta.name)),
        )
        ∷ []);
  };
}

unfoldable pub role_binding_for : Profile → String → String → RoleBinding
role_binding_for profile sa_name cluster_role_name = record {
  meta = record zero_meta { name = sa_name; namespace = profile.meta.name };
  role_ref = record {
    api_group = "rbac.authorization.k8s.io";
    kind = "ClusterRole";
    name = cluster_role_name;
  };
  subjects =
      record {
        kind = "ServiceAccount";
        api_group = "";
        name = sa_name;
        namespace = profile.meta.name;
      }
      ∷ [];
}

module _ {World : Type 0} (env : Env World) where
  -- `if apierrors.IsNotFound(err) { err = r.Create(…) }`
  create_if_missing :
      {A : Type 0} → ObjectClient World A → (A → Object) → A → Error → Act World (Unit {0})
  create_if_missing client kind a e =
      let make : Act World (Unit {0}) = (create client kind a >>= return_error) in
      if env.is_not_found e then make else fail e

  sync_request_authentication :
      RequestAuthentication → Reply RequestAuthentication → Act World (Unit {0})
  unfolding create_if_missing request_authentication_equal
  sync_request_authentication want (failed e) =
      create_if_missing env.request_authentications Object.request_authentication want e
  sync_request_authentication want (found old) =
      let write : Act World (Unit {0}) =
        (update env.request_authentications Object.request_authentication
            (record old { spec = want.spec })
          >>= return_error) in
      if request_authentication_equal want old then pure tt else write

  request_authentication_with : RequestAuthentication → Reply ObjectMeta → Act World (Unit {0})
  unfolding sync_request_authentication
  request_authentication_with want (failed e) = fail e
  request_authentication_with want (found meta) = do
    r ← get env.request_authentications (key_of meta)
    sync_request_authentication (record want { meta = meta }) r

  unfoldable pub update_istio_request_authentication :
      Profile → String → String → Act World (Unit {0})
  unfolding request_authentication_with request_authentication_for
  update_istio_request_authentication profile oidc_issuer jwks_uri =
      let want = request_authentication_for profile oidc_issuer jwks_uri in
      request_authentication_with want (env.set_controller_reference profile want.meta)

  sync_authorization_policy : AuthorizationPolicy → Reply AuthorizationPolicy → Act World (Unit {0})
  unfolding create_if_missing authorization_policy_equal
  sync_authorization_policy want (failed e) =
      create_if_missing env.authorization_policies Object.authorization_policy want e
  sync_authorization_policy want (found old) =
      let write : Act World (Unit {0}) =
        (update env.authorization_policies Object.authorization_policy
            (record old { spec = want.spec })
          >>= return_error) in
      if authorization_policy_equal want old then pure tt else write

  authorization_policy_with : AuthorizationPolicy → Reply ObjectMeta → Act World (Unit {0})
  unfolding sync_authorization_policy
  authorization_policy_with want (failed e) = fail e
  authorization_policy_with want (found meta) = do
    r ← get env.authorization_policies (key_of meta)
    sync_authorization_policy (record want { meta = meta }) r

  unfoldable pub update_istio_authorization_policy :
      Profile → String → String → Act World (Unit {0})
  unfolding authorization_policy_with authorization_policy_for
  update_istio_authorization_policy profile user_id_prefix oidc_issuer =
      let want = authorization_policy_for profile user_id_prefix oidc_issuer in
      authorization_policy_with want (env.set_controller_reference profile want.meta)

  sync_resource_quota : ResourceQuota → Reply ResourceQuota → Act World (Unit {0})
  unfolding create_if_missing resource_quota_spec_equal
  sync_resource_quota want (failed e) =
      create_if_missing env.resource_quotas Object.resource_quota want e
  sync_resource_quota want (found old) =
      let write : Act World (Unit {0}) =
        (update env.resource_quotas Object.resource_quota (record old { spec = want.spec })
          >>= return_error) in
      if resource_quota_spec_equal want.spec old.spec then pure tt else write

  resource_quota_with : ResourceQuota → Reply ObjectMeta → Act World (Unit {0})
  unfolding sync_resource_quota
  resource_quota_with want (failed e) = fail e
  resource_quota_with want (found meta) = do
    r ← get env.resource_quotas (key_of meta)
    sync_resource_quota (record want { meta = meta }) r

  unfoldable pub update_resource_quota : Profile → ResourceQuota → Act World (Unit {0})
  unfolding resource_quota_with
  update_resource_quota profile want =
      resource_quota_with want (env.set_controller_reference profile want.meta)

  unfoldable pub sync_role_binding : RoleBinding → Reply RoleBinding → Act World (Unit {0})
  unfolding create_if_missing role_ref_equal subjects_equal
  sync_role_binding want (failed e) = create_if_missing env.role_bindings Object.role_binding want e
  sync_role_binding want (found old) =
      let write : Act World (Unit {0}) =
        (update env.role_bindings Object.role_binding
            (record old { role_ref = want.role_ref; subjects = want.subjects })
          >>= return_error) in
      if role_ref_equal want.role_ref old.role_ref && subjects_equal want.subjects old.subjects
      then pure tt
      else write

  role_binding_with : RoleBinding → Reply ObjectMeta → Act World (Unit {0})
  unfolding sync_role_binding
  role_binding_with want (failed e) = fail e
  role_binding_with want (found meta) = do
    r ← get env.role_bindings (key_of meta)
    sync_role_binding (record want { meta = meta }) r

  unfoldable pub update_role_binding : Profile → RoleBinding → Act World (Unit {0})
  unfolding role_binding_with
  update_role_binding profile want =
      role_binding_with want (env.set_controller_reference profile want.meta)

  -- A service account that is there stays as it is.
  sync_service_account : ServiceAccount → Reply ServiceAccount → Act World (Unit {0})
  unfolding create_if_missing
  sync_service_account want (failed e) =
      create_if_missing env.service_accounts Object.service_account want e
  sync_service_account want (found _) = pure tt

  service_account_with : ServiceAccount → Reply ObjectMeta → Act World (Unit {0})
  unfolding sync_service_account
  service_account_with want (failed e) = fail e
  service_account_with want (found meta) = do
    r ← get env.service_accounts (key_of meta)
    sync_service_account (record want { meta = meta }) r

  unfoldable pub update_service_account : Profile → String → String → String → Act World (Unit {0})
  unfolding service_account_with update_role_binding service_account_for role_binding_for
  update_service_account profile sa_name cluster_role_name aws_account_id =
      let want = service_account_for profile sa_name aws_account_id in
      service_account_with want (env.set_controller_reference profile want.meta)
      >> update_role_binding profile (role_binding_for profile sa_name cluster_role_name)
