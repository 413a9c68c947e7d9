-- ===== src/Copies/Configs.antt =====
-- apis/platform/v1alpha1/zz_generated.deepcopy.go: the types of the Config as they lie in memory.
-- The `DeepCopyInto` of apimachinery's types is a parameter.
pub mod Generated
pub mod Independent
use kubeflow_profile_control.Prelude.{String, Option, none, some, List}
use kubeflow_profile_control.Prelude.Dict.{Dict}
use kubeflow_profile_control.Api.Config.{
  ProviderConfigSpec, StorageSpec, InfrastructureSpec, IstioGatewaySpec, IstioSpec, NetworkSpec,
  OidcSpec, SecuritySpec, IdentitySpec,
}
use kubeflow_profile_control.Copies.{Addr, Copier, Kind}
use kubeflow_profile_control.Copies.Profiles.{TypeMeta, Library}

pub record ConfigStatus : Type 0 where

-- The types of config_types.go that hold a map or a slice, over what stands for it.
pub record NamespaceSpecOf (Labels : Type 0) : Type 0 where
  pub default_labels : Option Labels

pub record ConfigSpecOf (Namespaces Admins : Type 0) : Type 0 where
  pub infrastructure : InfrastructureSpec
  pub namespace : Namespaces
  pub network : NetworkSpec
  pub security : SecuritySpec
  pub identity : IdentitySpec
  pub admins : Option Admins

pub record ConfigOf (Meta Spec : Type 0) : Type 0 where
  pub type_meta : TypeMeta
  pub meta : Meta
  pub spec : Spec
  pub status : ConfigStatus

pub record ConfigListOf (Meta Items : Type 0) : Type 0 where
  pub type_meta : TypeMeta
  pub meta : Meta
  pub items : Option Items

abbrev pub ConfigSpecRef : Type 0
ConfigSpecRef = ConfigSpecOf (NamespaceSpecOf Addr) Addr

abbrev pub ConfigSpecValue : Type 0
ConfigSpecValue = ConfigSpecOf (NamespaceSpecOf (Dict String)) (List String)

module _ (lib : Library) where
  abbrev pub ConfigRef : Type 0
  ConfigRef = ConfigOf lib.ObjectMeta ConfigSpecRef

  abbrev pub ConfigValue : Type 0
  ConfigValue = ConfigOf lib.ObjectMetaValue ConfigSpecValue

  pub data Cell : Type 0 where
    other : lib.Other → Cell
    labels : Dict String → Cell
    admins : List String → Cell
    config_status : ConfigStatus → Cell
    identity_spec : IdentitySpec → Cell
    infrastructure_spec : InfrastructureSpec → Cell
    istio_gateway_spec : IstioGatewaySpec → Cell
    istio_spec : IstioSpec → Cell
    network_spec : NetworkSpec → Cell
    oidc_spec : OidcSpec → Cell
    provider_config_spec : ProviderConfigSpec → Cell
    security_spec : SecuritySpec → Cell
    storage_spec : StorageSpec → Cell
    namespace_spec : NamespaceSpecOf Addr → Cell
    config_spec : ConfigSpecRef → Cell
    config : ConfigRef → Cell
    configs : List ConfigRef → Cell
    config_list : ConfigListOf lib.ListMeta Addr → Cell

  -- The libraries' `DeepCopyInto`.
  pub record Copiers : Type 0 where
    pub copy_object_meta : Copier Cell lib.ObjectMeta lib.ObjectMetaValue
    pub copy_list_meta : Copier Cell lib.ListMeta lib.ListMetaValue

module _ {lib : Library} where
  abbrev pub labels_kind : Kind (Cell lib) (Dict String)
  labels_kind = record {
    wrap = Cell.labels;
    unwrap = λ c. elim c [ Cell.labels x ↦ some x | _ ↦ none ];
  }

  abbrev pub admins_kind : Kind (Cell lib) (List String)
  admins_kind = record {
    wrap = Cell.admins;
    unwrap = λ c. elim c [ Cell.admins x ↦ some x | _ ↦ none ];
  }

  abbrev pub config_status_kind : Kind (Cell lib) ConfigStatus
  config_status_kind = record {
    wrap = Cell.config_status;
    unwrap = λ c. elim c [ Cell.config_status x ↦ some x | _ ↦ none ];
  }

  abbrev pub identity_spec_kind : Kind (Cell lib) IdentitySpec
  identity_spec_kind = record {
    wrap = Cell.identity_spec;
    unwrap = λ c. elim c [ Cell.identity_spec x ↦ some x | _ ↦ none ];
  }

  abbrev pub infrastructure_spec_kind : Kind (Cell lib) InfrastructureSpec
  infrastructure_spec_kind = record {
    wrap = Cell.infrastructure_spec;
    unwrap = λ c. elim c [ Cell.infrastructure_spec x ↦ some x | _ ↦ none ];
  }

  abbrev pub istio_gateway_spec_kind : Kind (Cell lib) IstioGatewaySpec
  istio_gateway_spec_kind = record {
    wrap = Cell.istio_gateway_spec;
    unwrap = λ c. elim c [ Cell.istio_gateway_spec x ↦ some x | _ ↦ none ];
  }

  abbrev pub istio_spec_kind : Kind (Cell lib) IstioSpec
  istio_spec_kind = record {
    wrap = Cell.istio_spec;
    unwrap = λ c. elim c [ Cell.istio_spec x ↦ some x | _ ↦ none ];
  }

  abbrev pub network_spec_kind : Kind (Cell lib) NetworkSpec
  network_spec_kind = record {
    wrap = Cell.network_spec;
    unwrap = λ c. elim c [ Cell.network_spec x ↦ some x | _ ↦ none ];
  }

  abbrev pub oidc_spec_kind : Kind (Cell lib) OidcSpec
  oidc_spec_kind = record {
    wrap = Cell.oidc_spec;
    unwrap = λ c. elim c [ Cell.oidc_spec x ↦ some x | _ ↦ none ];
  }

  abbrev pub provider_config_spec_kind : Kind (Cell lib) ProviderConfigSpec
  provider_config_spec_kind = record {
    wrap = Cell.provider_config_spec;
    unwrap = λ c. elim c [ Cell.provider_config_spec x ↦ some x | _ ↦ none ];
  }

  abbrev pub security_spec_kind : Kind (Cell lib) SecuritySpec
  security_spec_kind = record {
    wrap = Cell.security_spec;
    unwrap = λ c. elim c [ Cell.security_spec x ↦ some x | _ ↦ none ];
  }

  abbrev pub storage_spec_kind : Kind (Cell lib) StorageSpec
  storage_spec_kind = record {
    wrap = Cell.storage_spec;
    unwrap = λ c. elim c [ Cell.storage_spec x ↦ some x | _ ↦ none ];
  }

  abbrev pub namespace_spec_kind : Kind (Cell lib) (NamespaceSpecOf Addr)
  namespace_spec_kind = record {
    wrap = Cell.namespace_spec;
    unwrap = λ c. elim c [ Cell.namespace_spec x ↦ some x | _ ↦ none ];
  }

  abbrev pub config_spec_kind : Kind (Cell lib) ConfigSpecRef
  config_spec_kind = record {
    wrap = Cell.config_spec;
    unwrap = λ c. elim c [ Cell.config_spec x ↦ some x | _ ↦ none ];
  }

  abbrev pub config_kind : Kind (Cell lib) (ConfigRef lib)
  config_kind = record {
    wrap = Cell.config;
    unwrap = λ c. elim c [ Cell.config x ↦ some x | _ ↦ none ];
  }

  abbrev pub configs_kind : Kind (Cell lib) (List (ConfigRef lib))
  configs_kind = record {
    wrap = Cell.configs;
    unwrap = λ c. elim c [ Cell.configs x ↦ some x | _ ↦ none ];
  }

  abbrev pub config_list_kind : Kind (Cell lib) (ConfigListOf lib.ListMeta Addr)
  config_list_kind = record {
    wrap = Cell.config_list;
    unwrap = λ c. elim c [ Cell.config_list x ↦ some x | _ ↦ none ];
  }
