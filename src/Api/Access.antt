-- ===== src/Api/Access.antt =====
-- The service accounts, role bindings, quotas and Istio policies that the controller manages.
use kubeflow_profile_control.Prelude.{String, Option, List}
use kubeflow_profile_control.Prelude.Dict.{Dict}
use kubeflow_profile_control.Api.Meta.{ObjectMeta, Subject, ResourceQuotaSpec}

pub record ServiceAccount : Type 0 where
  pub meta : ObjectMeta

pub record RoleRef : Type 0 where
  pub api_group : String
  pub kind : String
  pub name : String

pub record RoleBinding : Type 0 where
  pub meta : ObjectMeta
  pub role_ref : RoleRef
  pub subjects : List Subject

pub record ResourceQuota : Type 0 where
  pub meta : ObjectMeta
  pub spec : ResourceQuotaSpec

pub record JwtRule : Type 0 where
  pub issuer : String
  pub jwks_uri : String

-- The labels of a workload selector; a nil selector is `none`.
pub record RequestAuthenticationSpec : Type 0 where
  pub selector : Option (Dict String)
  pub jwt_rules : List JwtRule

pub record RequestAuthentication : Type 0 where
  pub meta : ObjectMeta
  pub spec : RequestAuthenticationSpec

-- `Rule_From` and `Rule_To` hold one source and one operation each.
pub record Source : Type 0 where
  pub principals : List String
  pub request_principals : List String
  pub namespaces : List String

pub record Operation : Type 0 where
  pub paths : List String

pub record Condition : Type 0 where
  pub key : String
  pub values : List String

pub record Rule : Type 0 where
  pub from : List Source
  pub to : List Operation
  pub when : List Condition

pub data Action : Type 0 where
  allow deny audit custom : Action

pub record AuthorizationPolicySpec : Type 0 where
  pub action : Action
  pub selector : Option (Dict String)
  pub rules : List Rule

pub record AuthorizationPolicy : Type 0 where
  pub meta : ObjectMeta
  pub spec : AuthorizationPolicySpec
