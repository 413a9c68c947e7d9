-- ===== src/Api/Config.antt =====
-- The types of apis/platform/v1alpha1/config_types.go.
use kubeflow_profile_control.Prelude.{String, Option, List}
use kubeflow_profile_control.Prelude.Dict.{Dict}
use kubeflow_profile_control.Api.Meta.{ObjectMeta}

pub record ProviderConfigSpec : Type 0 where
  pub account_id : String
  pub region : String
  pub cluster_oidc_issuer : String

pub record StorageSpec : Type 0 where
  pub provider : String
  pub bucket_name : String

pub record InfrastructureSpec : Type 0 where
  pub cluster_name : String
  pub provider : String
  pub provider_config : ProviderConfigSpec
  pub storage : StorageSpec

pub record NamespaceSpec : Type 0 where
  pub default_labels : Option (Dict String)

pub record IstioGatewaySpec : Type 0 where
  pub name : String
  pub namespace : String

pub record IstioSpec : Type 0 where
  pub cluster_gateway : IstioGatewaySpec

pub record NetworkSpec : Type 0 where
  pub hostname : String
  pub cluster_domain : String
  pub istio : IstioSpec

pub record OidcSpec : Type 0 where
  pub issuer : String
  pub jwks_uri : String

pub record SecuritySpec : Type 0 where
  pub oidc : OidcSpec

pub record IdentitySpec : Type 0 where
  pub user_id_prefix : String

pub record ConfigSpec : Type 0 where
  pub infrastructure : InfrastructureSpec
  pub namespace : NamespaceSpec
  pub network : NetworkSpec
  pub security : SecuritySpec
  pub identity : IdentitySpec
  pub admins : List String

-- `ConfigStatus` has no field.
pub record Config : Type 0 where
  pub meta : ObjectMeta
  pub spec : ConfigSpec
