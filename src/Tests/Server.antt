-- ===== src/Tests/Server.antt =====
-- A server that holds at most one object of each kind.
use kubeflow_profile_control.Prelude.{
  ◌≡◌, true, false, Bool, Option, none, some, [], ◌∷◌, ◌==◌, ap, sym,
}
use kubeflow_profile_control.Api.Meta.{ObjectMeta, Namespace, zero_meta}
use kubeflow_profile_control.Api.Profile.{Profile}
use kubeflow_profile_control.Api.Config.{Config}
use kubeflow_profile_control.Api.Access.{
  ServiceAccount, RoleBinding, ResourceQuota, RequestAuthentication, AuthorizationPolicy,
}
use kubeflow_profile_control.Cluster.{Env, ObjectClient, Error, Reply, found, failed, ObjectClient}
use kubeflow_profile_control.Tests.Retry.{retry, retry-keeps, retry-ends, retry-stops}
use kubeflow_profile_control.Cluster.Keeps.{IsReferenceSetter, IsRetry}

pub record Server (Text : Type 0) : Type 0 where
  pub profile : Option Profile
  pub config : Option Config
  pub namespace : Option Namespace
  pub service_account : Option ServiceAccount
  pub role_binding : Option RoleBinding
  pub resource_quota : Option ResourceQuota
  pub request_authentication : Option RequestAuthentication
  pub authorization_policy : Option AuthorizationPolicy
  pub role_document : Text

abbrev pub not_found : Error
not_found = Error.status_error "NotFound" "no such object"

abbrev pub is_not_found : Error → Bool
is_not_found (Error.status_error reason _) = reason == "NotFound"
is_not_found _ = false

abbrev pub answer : {A : Type 0} → Option A → Reply A
answer none = failed not_found
answer (some a) = found a

abbrev pub owned_by : Profile → ObjectMeta → ObjectMeta
owned_by p m = record m {
  owner_references =
      record {
        api_version = "kubeflow.org/v2alpha1";
        kind = "Profile";
        name = p.meta.name;
        uid = p.meta.uid;
        controller = true;
      }
      ∷ m.owner_references;
}

pub found-inj : {A : Type 0} (x y : A) → Reply.found x ≡ found y → x ≡ y
found-inj x y e = cc

module _ {Text : Type 0} where
  abbrev client :
      {A : Type 0}
      → (Server Text → Option A)
      → (A → Server Text → Server Text)
      → ObjectClient (Server Text) A
  client held put = record {
    get = λ key w. (answer (held w), w);
    create = λ a w. (none, put a w);
    update = λ a w. (none, put a w);
  }

  abbrev pub env : Env (Server Text)
  env = record {
    profiles = client (λ w. w.profile) (λ a w. record w { profile = some a });
    configs = client (λ w. w.config) (λ a w. record w { config = some a });
    namespaces = client (λ w. w.namespace) (λ a w. record w { namespace = some a });
    service_accounts =
        client (λ w. w.service_account) (λ a w. record w { service_account = some a });
    role_bindings = client (λ w. w.role_binding) (λ a w. record w { role_binding = some a });
    resource_quotas = client (λ w. w.resource_quota) (λ a w. record w { resource_quota = some a });
    request_authentications =
        client (λ w. w.request_authentication)
          (λ a w. record w { request_authentication = some a });
    authorization_policies =
        client (λ w. w.authorization_policy) (λ a w. record w { authorization_policy = some a });
    list_profiles = λ w. elim w.profile [
      | none ↦ (found (record { items = [] }), w)
      | some p ↦ (found (record { items = p ∷ [] }), w)
    ];
    is_not_found = is_not_found;
    set_controller_reference = λ p m. found (owned_by p m);
    retry = retry;
  }

  pub setter : IsReferenceSetter env
  setter = record {
    keeps_name = λ p m m' e. sym (ap (λ (x : ObjectMeta). x.name) (found-inj (owned_by p m) m' e));
    keeps_namespace =
        λ p m m' e. sym (ap (λ (x : ObjectMeta). x.namespace) (found-inj (owned_by p m) m' e));
    keeps_labels =
        λ p m m' e. sym (ap (λ (x : ObjectMeta). x.labels) (found-inj (owned_by p m) m' e));
    keeps_annotations =
        λ p m m' e. sym (ap (λ (x : ObjectMeta). x.annotations) (found-inj (owned_by p m) m' e));
  }

  pub retries : IsRetry env
  retries = record { keeps = retry-keeps; ends_as = retry-ends; stops = retry-stops }

abbrev pub alice : Profile
alice = record {
  meta = record zero_meta { name = "alice-ns"; uid = "42" };
  spec = record {
    owner = record { kind = "User"; api_group = ""; name = "alice"; namespace = "" };
    plugins = [];
    resource_quota_spec = record { hard = none; scopes = none; scope_selector = none };
    cluster_role = "";
    extra_resources = [];
  };
  status = record { conditions = [] };
}

abbrev pub config : Config
config = record {
  meta = record zero_meta { name = "config" };
  spec = record {
    infrastructure = record {
      cluster_name = "demo";
      provider = "aws";
      provider_config = record { account_id = "12"; region = "eu"; cluster_oidc_issuer = "oidc" };
      storage = record { provider = "s3"; bucket_name = "bucket" };
    };
    namespace = record { default_labels = some (("team", "ml") ∷ []) };
    network = record {
      hostname = "demo.example";
      cluster_domain = "cluster.local";
      istio = record { cluster_gateway = record { name = "gateway"; namespace = "istio" } };
    };
    security = record { oidc = record { issuer = "https://idp"; jwks_uri = "https://idp/keys" } };
    identity = record { user_id_prefix = "" };
    admins = [];
  };
}

abbrev pub server : {Text : Type 0} → Text → Server Text
server document = record {
  profile = some alice;
  config = some config;
  namespace = none;
  service_account = none;
  role_binding = none;
  resource_quota = none;
  request_authentication = none;
  authorization_policy = none;
  role_document = document;
}
