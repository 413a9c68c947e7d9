-- ===== src/Copies/Older.antt =====
-- The older versions of the profile API, apis/kubeflow.org/v1 and apis/kubeflow.org/v1beta1: their
-- types as they lie in memory. The two packages declare the same types, which are those of
-- v2alpha1 without the cluster role and the extra resources, so the shapes are shared here; each
-- package's own types and deep copies are in a child. The cells of the other packages are `Other`.
pub mod V1
pub mod V1beta1
pub mod Independent
use kubeflow_profile_control.Prelude.{Option, none, some, List}
use kubeflow_profile_control.Api.Meta.{Subject}
use kubeflow_profile_control.Api.Profile.{ProfileCondition}
use kubeflow_profile_control.Copies.{Addr, Copier, Kind}
use kubeflow_profile_control.Copies.Profiles.{
  PluginOf, ProfileStatusOf, ProfileOf, ProfileListOf, Library,
}

pub record ProfileSpecOf (Ps Quota : Type 0) : Type 0 where
  pub owner : Subject
  pub plugins : Option Ps
  pub resource_quota_spec : Quota

module _ (lib : Library) where
  abbrev pub Spec : Type 0
  Spec = ProfileSpecOf Addr lib.QuotaSpec

  abbrev pub SpecValue : Type 0
  SpecValue = ProfileSpecOf (List (PluginOf lib.RawExtensionValue)) lib.QuotaSpecValue

  abbrev pub ProfileRef : Type 0
  ProfileRef = ProfileOf lib.ObjectMeta Spec (ProfileStatusOf Addr)

  abbrev pub ProfileValue : Type 0
  ProfileValue = ProfileOf lib.ObjectMetaValue SpecValue (ProfileStatusOf (List ProfileCondition))

  abbrev pub ListRef : Type 0
  ListRef = ProfileListOf lib.ListMeta Addr

  abbrev pub ListValue : Type 0
  ListValue = ProfileListOf lib.ListMetaValue (List ProfileValue)

  pub data Cell : Type 0 where
    other : lib.Other → Cell
    raw_extension : lib.RawExtension → Cell
    plugin : PluginOf Addr → Cell
    plugins : List (PluginOf Addr) → Cell
    condition : ProfileCondition → Cell
    conditions : List ProfileCondition → Cell
    spec : Spec → Cell
    status : ProfileStatusOf Addr → Cell
    profile : ProfileRef → Cell
    profiles : List ProfileRef → Cell
    profile_list : ListRef → Cell

  -- The libraries' `DeepCopyInto`.
  pub record Copiers : Type 0 where
    pub copy_raw_extension : Copier Cell lib.RawExtension lib.RawExtensionValue
    pub copy_object_meta : Copier Cell lib.ObjectMeta lib.ObjectMetaValue
    pub copy_list_meta : Copier Cell lib.ListMeta lib.ListMetaValue
    pub copy_quota_spec : Copier Cell lib.QuotaSpec lib.QuotaSpecValue

module _ {lib : Library} where
  abbrev pub raw_extension_kind : Kind (Cell lib) lib.RawExtension
  raw_extension_kind = record {
    wrap = Cell.raw_extension;
    unwrap = λ c. elim c [ Cell.raw_extension x ↦ some x | _ ↦ none ];
  }

  abbrev pub plugin_kind : Kind (Cell lib) (PluginOf Addr)
  plugin_kind = record {
    wrap = Cell.plugin;
    unwrap = λ c. elim c [ Cell.plugin x ↦ some x | _ ↦ none ];
  }

  abbrev pub plugins_kind : Kind (Cell lib) (List (PluginOf Addr))
  plugins_kind = record {
    wrap = Cell.plugins;
    unwrap = λ c. elim c [ Cell.plugins x ↦ some x | _ ↦ none ];
  }

  abbrev pub condition_kind : Kind (Cell lib) ProfileCondition
  condition_kind = record {
    wrap = Cell.condition;
    unwrap = λ c. elim c [ Cell.condition x ↦ some x | _ ↦ none ];
  }

  abbrev pub conditions_kind : Kind (Cell lib) (List ProfileCondition)
  conditions_kind = record {
    wrap = Cell.conditions;
    unwrap = λ c. elim c [ Cell.conditions x ↦ some x | _ ↦ none ];
  }

  abbrev pub spec_kind : Kind (Cell lib) (Spec lib)
  spec_kind = record { wrap = Cell.spec; unwrap = λ c. elim c [ Cell.spec x ↦ some x | _ ↦ none ] }

  abbrev pub status_kind : Kind (Cell lib) (ProfileStatusOf Addr)
  status_kind = record {
    wrap = Cell.status;
    unwrap = λ c. elim c [ Cell.status x ↦ some x | _ ↦ none ];
  }

  abbrev pub profile_kind : Kind (Cell lib) (ProfileRef lib)
  profile_kind = record {
    wrap = Cell.profile;
    unwrap = λ c. elim c [ Cell.profile x ↦ some x | _ ↦ none ];
  }

  abbrev pub profiles_kind : Kind (Cell lib) (List (ProfileRef lib))
  profiles_kind = record {
    wrap = Cell.profiles;
    unwrap = λ c. elim c [ Cell.profiles x ↦ some x | _ ↦ none ];
  }

  abbrev pub profile_list_kind : Kind (Cell lib) (ListRef lib)
  profile_list_kind = record {
    wrap = Cell.profile_list;
    unwrap = λ c. elim c [ Cell.profile_list x ↦ some x | _ ↦ none ];
  }
