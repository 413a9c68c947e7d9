-- ===== src/Copies/Configs/Generated.antt =====
-- The `DeepCopyInto` of each type of apis/platform/v1alpha1/zz_generated.deepcopy.go as `copy_*`,
-- and its `DeepCopy` as `deep_copy_*`. `DeepCopyObject` is `DeepCopy` with nil passed on.
use kubeflow_profile_control.Prelude.{Option, List, String}
use kubeflow_profile_control.Prelude.Dict.{Dict}
use kubeflow_profile_control.Api.Config.{
  ProviderConfigSpec, StorageSpec, InfrastructureSpec, IstioGatewaySpec, IstioSpec, NetworkSpec,
  OidcSpec, SecuritySpec, IdentitySpec,
}
use kubeflow_profile_control.Copies.{Addr, Copier, plain, both, struct, pointer, each}
use kubeflow_profile_control.Copies.Profiles.{Library}
use kubeflow_profile_control.Copies.Configs.{
  ConfigStatus, NamespaceSpecOf, ConfigListOf, ConfigSpecRef, ConfigSpecValue, ConfigRef,
  ConfigValue, Cell, Copiers, labels_kind, admins_kind, config_status_kind, identity_spec_kind,
  infrastructure_spec_kind, istio_gateway_spec_kind, istio_spec_kind, network_spec_kind,
  oidc_spec_kind, provider_config_spec_kind, security_spec_kind, storage_spec_kind,
  namespace_spec_kind, config_spec_kind, config_kind, configs_kind, config_list_kind,
}

module _ (lib : Library) where
  unfoldable pub copy_config_status : Copier (Cell lib) ConfigStatus ConfigStatus
  unfolding plain
  copy_config_status = plain

  unfoldable pub deep_copy_config_status : Copier (Cell lib) (Option Addr) (Option ConfigStatus)
  unfolding copy_config_status pointer
  deep_copy_config_status = pointer config_status_kind copy_config_status

  unfoldable pub copy_identity_spec : Copier (Cell lib) IdentitySpec IdentitySpec
  unfolding plain
  copy_identity_spec = plain

  unfoldable pub deep_copy_identity_spec : Copier (Cell lib) (Option Addr) (Option IdentitySpec)
  unfolding copy_identity_spec pointer
  deep_copy_identity_spec = pointer identity_spec_kind copy_identity_spec

  unfoldable pub copy_infrastructure_spec : Copier (Cell lib) InfrastructureSpec InfrastructureSpec
  unfolding plain
  copy_infrastructure_spec = plain

  unfoldable pub deep_copy_infrastructure_spec :
      Copier (Cell lib) (Option Addr) (Option InfrastructureSpec)
  unfolding copy_infrastructure_spec pointer
  deep_copy_infrastructure_spec = pointer infrastructure_spec_kind copy_infrastructure_spec

  unfoldable pub copy_istio_gateway_spec : Copier (Cell lib) IstioGatewaySpec IstioGatewaySpec
  unfolding plain
  copy_istio_gateway_spec = plain

  unfoldable pub deep_copy_istio_gateway_spec :
      Copier (Cell lib) (Option Addr) (Option IstioGatewaySpec)
  unfolding copy_istio_gateway_spec pointer
  deep_copy_istio_gateway_spec = pointer istio_gateway_spec_kind copy_istio_gateway_spec

  unfoldable pub copy_istio_spec : Copier (Cell lib) IstioSpec IstioSpec
  unfolding plain
  copy_istio_spec = plain

  unfoldable pub deep_copy_istio_spec : Copier (Cell lib) (Option Addr) (Option IstioSpec)
  unfolding copy_istio_spec pointer
  deep_copy_istio_spec = pointer istio_spec_kind copy_istio_spec

  unfoldable pub copy_network_spec : Copier (Cell lib) NetworkSpec NetworkSpec
  unfolding plain
  copy_network_spec = plain

  unfoldable pub deep_copy_network_spec : Copier (Cell lib) (Option Addr) (Option NetworkSpec)
  unfolding copy_network_spec pointer
  deep_copy_network_spec = pointer network_spec_kind copy_network_spec

  unfoldable pub copy_oidc_spec : Copier (Cell lib) OidcSpec OidcSpec
  unfolding plain
  copy_oidc_spec = plain

  unfoldable pub deep_copy_oidc_spec : Copier (Cell lib) (Option Addr) (Option OidcSpec)
  unfolding copy_oidc_spec pointer
  deep_copy_oidc_spec = pointer oidc_spec_kind copy_oidc_spec

  unfoldable pub copy_provider_config_spec : Copier (Cell lib) ProviderConfigSpec ProviderConfigSpec
  unfolding plain
  copy_provider_config_spec = plain

  unfoldable pub deep_copy_provider_config_spec :
      Copier (Cell lib) (Option Addr) (Option ProviderConfigSpec)
  unfolding copy_provider_config_spec pointer
  deep_copy_provider_config_spec = pointer provider_config_spec_kind copy_provider_config_spec

  unfoldable pub copy_security_spec : Copier (Cell lib) SecuritySpec SecuritySpec
  unfolding plain
  copy_security_spec = plain

  unfoldable pub deep_copy_security_spec : Copier (Cell lib) (Option Addr) (Option SecuritySpec)
  unfolding copy_security_spec pointer
  deep_copy_security_spec = pointer security_spec_kind copy_security_spec

  unfoldable pub copy_storage_spec : Copier (Cell lib) StorageSpec StorageSpec
  unfolding plain
  copy_storage_spec = plain

  unfoldable pub deep_copy_storage_spec : Copier (Cell lib) (Option Addr) (Option StorageSpec)
  unfolding copy_storage_spec pointer
  deep_copy_storage_spec = pointer storage_spec_kind copy_storage_spec

  -- The entries of the map are strings, which the loop puts into the new map one by one.
  unfoldable pub copy_namespace_spec :
      Copier (Cell lib) (NamespaceSpecOf Addr) (NamespaceSpecOf (Dict String))
  unfolding plain struct pointer
  copy_namespace_spec =
      struct (pointer labels_kind plain) (λ s. s.default_labels)
        (λ s labels. record s { default_labels = labels })
        (λ s labels. record { default_labels = labels })

  unfoldable pub deep_copy_namespace_spec :
      Copier (Cell lib) (Option Addr) (Option (NamespaceSpecOf (Dict String)))
  unfolding copy_namespace_spec pointer
  deep_copy_namespace_spec = pointer namespace_spec_kind copy_namespace_spec

  unfoldable pub copy_config_spec : Copier (Cell lib) ConfigSpecRef ConfigSpecValue
  unfolding plain both struct pointer copy_namespace_spec
  copy_config_spec =
      struct (both copy_namespace_spec (pointer admins_kind plain)) (λ s. (s.namespace, s.admins))
        (λ s (namespace, admins). record s { namespace = namespace; admins = admins })
        (λ s (namespace, admins). record {
          infrastructure = s.infrastructure;
          namespace = namespace;
          network = s.network;
          security = s.security;
          identity = s.identity;
          admins = admins;
        })

  unfoldable pub deep_copy_config_spec : Copier (Cell lib) (Option Addr) (Option ConfigSpecValue)
  unfolding copy_config_spec pointer
  deep_copy_config_spec = pointer config_spec_kind copy_config_spec

module _ (lib : Library) (copiers : Copiers lib) where
  unfoldable pub copy_config : Copier (Cell lib) (ConfigRef lib) (ConfigValue lib)
  unfolding both struct copy_config_spec
  copy_config =
      struct (both copiers.copy_object_meta (copy_config_spec lib)) (λ c. (c.meta, c.spec))
        (λ c (meta, spec). record c { meta = meta; spec = spec })
        (λ c (meta, spec). record {
          type_meta = c.type_meta;
          meta = meta;
          spec = spec;
          status = c.status;
        })

  unfoldable pub deep_copy_config : Copier (Cell lib) (Option Addr) (Option (ConfigValue lib))
  unfolding copy_config pointer
  deep_copy_config = pointer config_kind copy_config

  unfoldable pub copy_config_list :
      Copier
        (Cell lib)
        (ConfigListOf lib.ListMeta Addr)
        (ConfigListOf lib.ListMetaValue (List (ConfigValue lib)))
  unfolding both struct pointer each copy_config
  copy_config_list =
      struct (both copiers.copy_list_meta (pointer configs_kind (each copy_config)))
        (λ l. (l.meta, l.items)) (λ l (meta, items). record l { meta = meta; items = items })
        (λ l (meta, items). record { type_meta = l.type_meta; meta = meta; items = items })

  unfoldable pub deep_copy_config_list :
      Copier
        (Cell lib)
        (Option Addr)
        (Option (ConfigListOf lib.ListMetaValue (List (ConfigValue lib))))
  unfolding copy_config_list pointer
  deep_copy_config_list = pointer config_list_kind copy_config_list
