-- ===== src/Api/Meta.antt =====
-- The Kubernetes metadata and core types that the controller fills in or reads: the fields that it
-- uses. A Go pointer, and a map or slice that is compared with nil, is an `Option`.
use kubeflow_profile_control.Prelude.{ℕ, String, Bool, Option, none, List, []}
use kubeflow_profile_control.Prelude.Dict.{Dict}

pub record NamespacedName : Type 0 where
  pub namespace : String
  pub name : String

pub record OwnerReference : Type 0 where
  pub api_version : String
  pub kind : String
  pub name : String
  pub uid : String
  pub controller : Bool

pub record ObjectMeta : Type 0 where
  pub name : String
  pub namespace : String
  pub uid : String
  pub resource_version : String
  pub labels : Option (Dict String)
  pub annotations : Option (Dict String)
  pub finalizers : List String
  pub owner_references : List OwnerReference
  pub deletion_timestamp : Option ℕ

-- What a literal leaves out has its zero value.
abbrev pub zero_meta : ObjectMeta
zero_meta = record {
  name = "";
  namespace = "";
  uid = "";
  resource_version = "";
  labels = none;
  annotations = none;
  finalizers = [];
  owner_references = [];
  deletion_timestamp = none;
}

pub record Subject : Type 0 where
  pub kind : String
  pub api_group : String
  pub name : String
  pub namespace : String

pub record ScopedSelectorRequirement : Type 0 where
  pub scope_name : String
  pub operator : String
  pub values : Option (List String)

pub record ScopeSelector : Type 0 where
  pub match_expressions : Option (List ScopedSelectorRequirement)

-- A quantity is its text; a nil slice is `none`.
pub record ResourceQuotaSpec : Type 0 where
  pub hard : Option (Dict String)
  pub scopes : Option (List String)
  pub scope_selector : Option ScopeSelector

pub record Namespace : Type 0 where
  pub meta : ObjectMeta
  pub phase : String

-- `unstructured.Unstructured`: its kind and metadata, and the rest of its content as text.
pub record Unstructured : Type 0 where
  pub kind : String
  pub meta : ObjectMeta
  pub content : String
