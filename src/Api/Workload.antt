-- ===== src/Api/Workload.antt =====
-- The workloads, policies and AWS resources that the generators build: the fields that they fill
-- in.
use kubeflow_profile_control.Prelude.{ℕ, String, Bool, List}
use kubeflow_profile_control.Prelude.Dict.{Dict}
use kubeflow_profile_control.Api.Meta.{ObjectMeta}

pub record ContainerPort : Type 0 where
  pub name : String
  pub container_port : ℕ
  pub protocol : String

-- Quantities are kept as they are written.
pub record ResourceRequirements : Type 0 where
  pub requests : Dict String
  pub limits : Dict String

pub record Container : Type 0 where
  pub name : String
  pub image : String
  pub image_pull_policy : String
  pub ports : List ContainerPort
  pub resources : ResourceRequirements

pub record PodSpec : Type 0 where
  pub service_account_name : String
  pub containers : List Container

pub record DeploymentSpec : Type 0 where
  pub replicas : ℕ
  pub selector : Dict String
  pub template_labels : Dict String
  pub template_spec : PodSpec

pub record Deployment : Type 0 where
  pub meta : ObjectMeta
  pub spec : DeploymentSpec

pub record ServicePort : Type 0 where
  pub name : String
  pub port : ℕ
  pub protocol : String
  pub target_port : ℕ

pub record ServiceSpec : Type 0 where
  pub selector : Dict String
  pub ports : List ServicePort

pub record Service : Type 0 where
  pub meta : ObjectMeta
  pub spec : ServiceSpec

pub record ConfigMap : Type 0 where
  pub meta : ObjectMeta
  pub contents : Dict String

pub data TlsMode : Type 0 where
  disable simple mutual_tls istio_mutual : TlsMode

pub record DestinationRule : Type 0 where
  pub meta : ObjectMeta
  pub host : String
  pub tls_mode : TlsMode

pub data MtlsMode : Type 0 where
  unset disabled permissive strict : MtlsMode

pub record PeerAuthentication : Type 0 where
  pub meta : ObjectMeta
  pub mtls_mode : MtlsMode

-- The one patch of a filter, with the names that it matches and the strings of its value.
pub record EnvoyPatch : Type 0 where
  pub apply_to : String
  pub context : String
  pub filter_name : String
  pub sub_filter_name : String
  pub operation : String
  pub value_name : String
  pub typed_config : Dict String

pub record EnvoyFilter : Type 0 where
  pub meta : ObjectMeta
  pub config_patches : List EnvoyPatch

pub record EnvVar : Type 0 where
  pub name : String
  pub value : String

pub record VolumeMount : Type 0 where
  pub name : String
  pub mount_path : String
  pub read_only : Bool

-- A volume with one projected service account token.
pub record TokenVolume : Type 0 where
  pub name : String
  pub audience : String
  pub expiration_seconds : ℕ
  pub path : String

pub record PodDefault : Type 0 where
  pub meta : ObjectMeta
  pub desc : String
  pub env : List EnvVar
  pub selector : Dict String
  pub volume_mounts : List VolumeMount
  pub volumes : List TokenVolume

-- `ackIAM.Policy` and `ackIAM.Role`.
pub record IamPolicy : Type 0 where
  pub meta : ObjectMeta
  pub description : String
  pub name : String
  pub path : String
  pub policy_document : String

pub record IamTag : Type 0 where
  pub key : String
  pub value : String

pub record IamRole : Type 0 where
  pub meta : ObjectMeta
  pub assume_role_policy_document : String
  pub max_session_duration : ℕ
  pub name : String
  pub path : String
  pub policies : List String
  pub tags : List IamTag
