-- ===== src/Api/Profile.antt =====
-- The types of apis/kubeflow.org/v2alpha1/profile_types.go. The text of a `runtime.RawExtension`
-- is kept as it is; a nil pointer to one is `none`.
use kubeflow_profile_control.Prelude.{String, Option, List}
use kubeflow_profile_control.Api.Meta.{ObjectMeta, Subject, ResourceQuotaSpec}

-- `metav1.TypeMeta` is inlined: of it the code reads `Kind`.
pub record Plugin : Type 0 where
  pub kind : String
  pub spec : Option String

pub record ProfileCondition : Type 0 where
  pub type : String
  pub status : String
  pub message : String

pub record ExtraResource : Type 0 where
  pub file_name : String
  pub vars : Option String

pub record ProfileSpec : Type 0 where
  pub owner : Subject
  pub plugins : List Plugin
  pub resource_quota_spec : ResourceQuotaSpec
  pub cluster_role : String
  pub extra_resources : List ExtraResource

abbrev pub profile_succeed : String
profile_succeed = "Successful"

abbrev pub profile_failed : String
profile_failed = "Failed"

abbrev pub profile_unknown : String
profile_unknown = "Unknown"

pub record ProfileStatus : Type 0 where
  pub conditions : List ProfileCondition

pub record Profile : Type 0 where
  pub meta : ObjectMeta
  pub spec : ProfileSpec
  pub status : ProfileStatus

pub record ProfileList : Type 0 where
  pub items : List Profile
