-- ===== src/Copies/Older/V1.antt =====
-- apis/kubeflow.org/v1: the types of profile_types.go, and the `DeepCopyInto` of each as `copy_*`
-- and its `DeepCopy` as `deep_copy_*`, from zz_generated.deepcopy.go. `DeepCopyObject` is
-- `DeepCopy` with nil passed on.
use kubeflow_profile_control.Prelude.{Option, List}
use kubeflow_profile_control.Api.Profile.{ProfileCondition as Condition}
use kubeflow_profile_control.Copies.{Addr, Copier, plain, both, struct, pointer, each}
use kubeflow_profile_control.Copies.Profiles.{PluginOf, ProfileStatusOf, Library}
use kubeflow_profile_control.Copies.Older.{
  Spec, SpecValue, ProfileRef, ProfileValue, ListRef, ListValue, Cell, Copiers, raw_extension_kind,
  plugin_kind, plugins_kind, condition_kind, conditions_kind, spec_kind, status_kind, profile_kind,
  profiles_kind, profile_list_kind,
}

abbrev pub Plugin : Type 0
Plugin = PluginOf Addr

abbrev pub ProfileCondition : Type 0
ProfileCondition = Condition

abbrev pub ProfileStatus : Type 0
ProfileStatus = ProfileStatusOf Addr

module _ (lib : Library) where
  abbrev pub ProfileSpec : Type 0
  ProfileSpec = Spec lib

  abbrev pub Profile : Type 0
  Profile = ProfileRef lib

  abbrev pub ProfileList : Type 0
  ProfileList = ListRef lib

module _ (lib : Library) (copiers : Copiers lib) where
  unfoldable pub copy_plugin : Copier (Cell lib) Plugin (PluginOf lib.RawExtensionValue)
  unfolding struct pointer
  copy_plugin =
      struct (pointer raw_extension_kind copiers.copy_raw_extension) (λ p. p.spec)
        (λ p spec. record p { spec = spec })
        (λ p spec. record { type_meta = p.type_meta; spec = spec })

  unfoldable pub deep_copy_plugin :
      Copier (Cell lib) (Option Addr) (Option (PluginOf lib.RawExtensionValue))
  unfolding copy_plugin pointer
  deep_copy_plugin = pointer plugin_kind copy_plugin

  unfoldable pub copy_profile_condition : Copier (Cell lib) ProfileCondition ProfileCondition
  unfolding plain
  copy_profile_condition = plain

  unfoldable pub deep_copy_profile_condition :
      Copier (Cell lib) (Option Addr) (Option ProfileCondition)
  unfolding copy_profile_condition pointer
  deep_copy_profile_condition = pointer condition_kind copy_profile_condition

  unfoldable pub copy_profile_spec : Copier (Cell lib) (ProfileSpec lib) (SpecValue lib)
  unfolding both struct pointer each copy_plugin
  copy_profile_spec =
      struct (both (pointer plugins_kind (each copy_plugin)) copiers.copy_quota_spec)
        (λ s. (s.plugins, s.resource_quota_spec))
        (λ s (plugins, quota). record s { plugins = plugins; resource_quota_spec = quota })
        (λ s (plugins, quota). record {
          owner = s.owner;
          plugins = plugins;
          resource_quota_spec = quota;
        })

  unfoldable pub deep_copy_profile_spec : Copier (Cell lib) (Option Addr) (Option (SpecValue lib))
  unfolding copy_profile_spec pointer
  deep_copy_profile_spec = pointer spec_kind copy_profile_spec

  unfoldable pub copy_profile_status :
      Copier (Cell lib) ProfileStatus (ProfileStatusOf (List ProfileCondition))
  unfolding plain struct pointer
  copy_profile_status =
      struct (pointer conditions_kind plain) (λ s. s.conditions)
        (λ s conditions. record s { conditions = conditions })
        (λ s conditions. record { conditions = conditions })

  unfoldable pub deep_copy_profile_status :
      Copier (Cell lib) (Option Addr) (Option (ProfileStatusOf (List ProfileCondition)))
  unfolding copy_profile_status pointer
  deep_copy_profile_status = pointer status_kind copy_profile_status

  unfoldable pub copy_profile : Copier (Cell lib) (Profile lib) (ProfileValue lib)
  unfolding both struct copy_profile_spec copy_profile_status
  copy_profile =
      struct (both copiers.copy_object_meta (both copy_profile_spec copy_profile_status))
        (λ p. (p.meta, (p.spec, p.status)))
        (λ p (meta, (spec, status)). record p { meta = meta; spec = spec; status = status })
        (λ p (meta, (spec, status)). record {
          type_meta = p.type_meta;
          meta = meta;
          spec = spec;
          status = status;
        })

  unfoldable pub deep_copy_profile : Copier (Cell lib) (Option Addr) (Option (ProfileValue lib))
  unfolding copy_profile pointer
  deep_copy_profile = pointer profile_kind copy_profile

  unfoldable pub copy_profile_list : Copier (Cell lib) (ProfileList lib) (ListValue lib)
  unfolding both struct pointer each copy_profile
  copy_profile_list =
      struct (both copiers.copy_list_meta (pointer profiles_kind (each copy_profile)))
        (λ l. (l.meta, l.items)) (λ l (meta, items). record l { meta = meta; items = items })
        (λ l (meta, items). record { type_meta = l.type_meta; meta = meta; items = items })

  unfoldable pub deep_copy_profile_list : Copier (Cell lib) (Option Addr) (Option (ListValue lib))
  unfolding copy_profile_list pointer
  deep_copy_profile_list = pointer profile_list_kind copy_profile_list
