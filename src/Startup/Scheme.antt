-- ===== src/Startup/Scheme.antt =====
-- What the packages of this repository give to the scheme: apis/*/*/groupversion_info.go, and the
-- `init` of apis/*/*/*_types.go. `AddToScheme` registers the types of the builder under their Go
-- names, as kinds of its group and version. What the other packages register is not read here.
use kubeflow_profile_control.Prelude.{String, Bool, Option, none, some, List, [], ◌∷◌, ◌&&◌, ◌==◌}
use kubeflow_profile_control.Startup.{
  Package, kubeflow_v1, kubeflow_v1beta1, kubeflow_v2alpha1, platform_v1alpha1,
}

pub record GroupVersion : Type 0 where
  pub group : String
  pub version : String

-- `scheme.Builder`, with the names of the registered types.
pub record SchemeBuilder : Type 0 where
  pub group_version : GroupVersion
  pub types : List String

abbrev v1_group_version : GroupVersion
v1_group_version = record { group = "kubeflow.org"; version = "v1" }

abbrev v1beta1_group_version : GroupVersion
v1beta1_group_version = record { group = "kubeflow.org"; version = "v1beta1" }

abbrev v2alpha1_group_version : GroupVersion
v2alpha1_group_version = record { group = "kubeflow.org"; version = "v2alpha1" }

abbrev platform_group_version : GroupVersion
platform_group_version = record { group = "platform.kubeflow.org"; version = "v1alpha1" }

abbrev v1_types : List String
v1_types = "Profile" ∷ "ProfileList" ∷ []

abbrev v1beta1_types : List String
v1beta1_types = "Profile" ∷ "ProfileList" ∷ []

abbrev v2alpha1_types : List String
v2alpha1_types = "Profile" ∷ "ProfileList" ∷ []

abbrev platform_types : List String
platform_types = "Config" ∷ "ConfigList" ∷ []

-- The builder of a package, if it is one of this repository.
abbrev pub scheme_builder : Package → Option SchemeBuilder
scheme_builder kubeflow_v1 = some (record { group_version = v1_group_version; types = v1_types })
scheme_builder kubeflow_v1beta1 =
    some (record { group_version = v1beta1_group_version; types = v1beta1_types })
scheme_builder kubeflow_v2alpha1 =
    some (record { group_version = v2alpha1_group_version; types = v2alpha1_types })
scheme_builder platform_v1alpha1 =
    some (record { group_version = platform_group_version; types = platform_types })
scheme_builder _ = none

abbrev pub same_group_version : GroupVersion → GroupVersion → Bool
same_group_version a b = (a.group == b.group) && (a.version == b.version)
