-- ===== src/Copies/Profiles.antt =====
-- apis/kubeflow.org/v2alpha1/zz_generated.deepcopy.go: the types of the profile API as they lie in
-- memory, and their `DeepCopyInto` and `DeepCopy`. The `DeepCopyInto` of apimachinery's and
-- client-go's types is a parameter.
pub mod Generated
pub mod Independent
use kubeflow_profile_control.Prelude.{String, Option, none, some, List}
use kubeflow_profile_control.Api.Meta.{Subject}
use kubeflow_profile_control.Api.Profile.{ProfileCondition}
use kubeflow_profile_control.Copies.{Addr, Copier, Kind}

pub record TypeMeta : Type 0 where
  pub kind : String
  pub api_version : String

-- The types of profile_types.go, over what stands for what is behind a pointer or a slice: an
-- address in memory, a value for a reader. A nil pointer or slice is `none`.
pub record PluginOf (P : Type 0) : Type 0 where
  pub type_meta : TypeMeta
  pub spec : Option P

pub record ExtraResourceOf (P : Type 0) : Type 0 where
  pub file_name : String
  pub vars : Option P

pub record ProfileSpecOf (Ps Quota Es : Type 0) : Type 0 where
  pub owner : Subject
  pub plugins : Option Ps
  pub resource_quota_spec : Quota
  pub cluster_role : String
  pub extra_resources : Option Es

pub record ProfileStatusOf (Cs : Type 0) : Type 0 where
  pub conditions : Option Cs

pub record ProfileOf (Meta Spec Status : Type 0) : Type 0 where
  pub type_meta : TypeMeta
  pub meta : Meta
  pub spec : Spec
  pub status : Status

pub record ProfileListOf (Meta Items : Type 0) : Type 0 where
  pub type_meta : TypeMeta
  pub meta : Meta
  pub items : Option Items

-- The libraries' types, in memory and as values, and what else their cells hold.
pub record Library : Type 1 where
  pub Other : Type 0
  pub RawExtension : Type 0
  pub RawExtensionValue : Type 0
  pub ObjectMeta : Type 0
  pub ObjectMetaValue : Type 0
  pub ListMeta : Type 0
  pub ListMetaValue : Type 0
  pub QuotaSpec : Type 0
  pub QuotaSpecValue : Type 0

module _ (lib : Library) where
  abbrev pub Spec : Type 0
  Spec = ProfileSpecOf Addr lib.QuotaSpec Addr

  abbrev pub SpecValue : Type 0
  SpecValue =
      ProfileSpecOf (List (PluginOf lib.RawExtensionValue)) lib.QuotaSpecValue
        (List (ExtraResourceOf lib.RawExtensionValue))

  abbrev pub ProfileRef : Type 0
  ProfileRef = ProfileOf lib.ObjectMeta Spec (ProfileStatusOf Addr)

  abbrev pub ProfileValue : Type 0
  ProfileValue = ProfileOf lib.ObjectMetaValue SpecValue (ProfileStatusOf (List ProfileCondition))

  pub data Cell : Type 0 where
    other : lib.Other → Cell
    raw_extension : lib.RawExtension → Cell
    extra_resource : ExtraResourceOf Addr → Cell
    extra_resources : List (ExtraResourceOf Addr) → Cell
    plugin : PluginOf Addr → Cell
    plugins : List (PluginOf Addr) → Cell
    condition : ProfileCondition → Cell
    conditions : List ProfileCondition → Cell
    spec : Spec → Cell
    status : ProfileStatusOf Addr → Cell
    profile : ProfileRef → Cell
    profiles : List ProfileRef → Cell
    profile_list : ProfileListOf lib.ListMeta Addr → Cell

  -- The libraries' `DeepCopyInto`.
  pub record Copiers : Type 0 where
    pub copy_raw_extension : Copier Cell lib.RawExtension lib.RawExtensionValue
    pub copy_object_meta : Copier Cell lib.ObjectMeta lib.ObjectMetaValue
    pub copy_list_meta : Copier Cell lib.ListMeta lib.ListMetaValue
    pub copy_quota_spec : Copier Cell lib.QuotaSpec lib.QuotaSpecValue

module _ {lib : Library} where
  abbrev pub raw_extension_kind : Kind (Cell lib) lib.RawExtension
  raw_extension_kind = record {
    wrap = Cell.raw_extension;
    unwrap = λ c. elim c [ Cell.raw_extension x ↦ some x | _ ↦ none ];
  }

  abbrev pub extra_resource_kind : Kind (Cell lib) (ExtraResourceOf Addr)
  extra_resource_kind = record {
    wrap = Cell.extra_resource;
    unwrap = λ c. elim c [ Cell.extra_resource x ↦ some x | _ ↦ none ];
  }

  abbrev pub extra_resources_kind : Kind (Cell lib) (List (ExtraResourceOf Addr))
  extra_resources_kind = record {
    wrap = Cell.extra_resources;
    unwrap = λ c. elim c [ Cell.extra_resources x ↦ some x | _ ↦ none ];
  }

  abbrev pub plugin_kind : Kind (Cell lib) (PluginOf Addr)
  plugin_kind = record {
    wrap = Cell.plugin;
    unwrap = λ c. elim c [ Cell.plugin x ↦ some x | _ ↦ none ];
  }

  abbrev pub plugins_kind : Kind (Cell lib) (List (PluginOf Addr))
  plugins_kind = record {
    wrap = Cell.plugins;
    unwrap = λ c. elim c [ Cell.plugins x ↦ some x | _ ↦ none ];
  }

  abbrev pub condition_kind : Kind (Cell lib) ProfileCondition
  condition_kind = record {
    wrap = Cell.condition;
    unwrap = λ c. elim c [ Cell.condition x ↦ some x | _ ↦ none ];
  }

  abbrev pub conditions_kind : Kind (Cell lib) (List ProfileCondition)
  conditions_kind = record {
    wrap = Cell.conditions;
    unwrap = λ c. elim c [ Cell.conditions x ↦ some x | _ ↦ none ];
  }

  abbrev pub spec_kind : Kind (Cell lib) (Spec lib)
  spec_kind = record { wrap = Cell.spec; unwrap = λ c. elim c [ Cell.spec x ↦ some x | _ ↦ none ] }

  abbrev pub status_kind : Kind (Cell lib) (ProfileStatusOf Addr)
  status_kind = record {
    wrap = Cell.status;
    unwrap = λ c. elim c [ Cell.status x ↦ some x | _ ↦ none ];
  }

  abbrev pub profile_kind : Kind (Cell lib) (ProfileRef lib)
  profile_kind = record {
    wrap = Cell.profile;
    unwrap = λ c. elim c [ Cell.profile x ↦ some x | _ ↦ none ];
  }

  abbrev pub profiles_kind : Kind (Cell lib) (List (ProfileRef lib))
  profiles_kind = record {
    wrap = Cell.profiles;
    unwrap = λ c. elim c [ Cell.profiles x ↦ some x | _ ↦ none ];
  }

  abbrev pub profile_list_kind : Kind (Cell lib) (ProfileListOf lib.ListMeta Addr)
  profile_list_kind = record {
    wrap = Cell.profile_list;
    unwrap = λ c. elim c [ Cell.profile_list x ↦ some x | _ ↦ none ];
  }
