-- ===== src/Tests/Text.antt =====
-- Texts that are a JSON value or none, and the libraries at them.
use kubeflow_profile_control.Prelude.{
  String, refl, Option, none, some, List, [], ◌==◌, if◌then◌else◌,
}
use kubeflow_profile_control.Prelude.Dict.{Dict}
use kubeflow_profile_control.Cluster.{Error, Reply, found, failed}
use kubeflow_profile_control.Plugins.Json.{
  Json, null, string, array, object, items, members, member_at, first_item, JsonLib, IsJsonLib,
}
use kubeflow_profile_control.Plugins.Iam.{Aws}
use kubeflow_profile_control.Plugins.Specs.{YamlLib}
use kubeflow_profile_control.Tests.Server.{Server}

pub data Text : Type 0 where
  text : Json → Text
  garbled : Text

abbrev unmarshal : Text → Reply Json
unmarshal (text j) = found j
unmarshal garbled = failed (Error.message "invalid character")

abbrev value : Text → Json
value (text j) = j
value garbled = null

abbrev string_of : Json → String
string_of (string s) = s
string_of _ = ""

abbrev map_of : Json → Dict Json
map_of (object ms) = members ms
map_of _ = []

abbrev array_of : Json → List Json
array_of (array js) = items js
array_of _ = []

abbrev pub json : JsonLib Text
json = record {
  unmarshal = unmarshal;
  marshal = text;
  empty = garbled;
  gjson_get = λ t path.
      if path == "Statement.0.Principal.Federated"
      then member_at "Federated"
          (member_at "Principal" (first_item (member_at "Statement" (value t))))
      else if path == "Condition.StringEquals"
      then member_at "StringEquals" (member_at "Condition" (value t))
      else null;
  result_string = string_of;
  result_map = map_of;
  result_array = array_of;
  result_str = string_of;
}

pub json-IsJsonLib : IsJsonLib json
json-IsJsonLib = record {
  unmarshal-marshal = λ j. refl;
  gjson_get-federated = λ j. refl;
  gjson_get-string_equals = λ j. refl;
  result_string-string = λ s. refl;
  result_map-object = λ ms. refl;
  result_array-array = λ js. refl;
  result_str-string = λ s. refl;
}

-- The one role's document is kept as it is.
abbrev pub aws : Aws (Server Text) Text
aws = record {
  new_session = λ w. (none, w);
  get_role = λ name w. (found w.role_document, w);
  query_unescape = found;
  update_assume_role_policy = λ name t w. (none, record w { role_document = t });
}

-- A plugin's spec is the account's name itself.
abbrev pub yaml : YamlLib (Option String)
yaml = record {
  marshal = found;
  unmarshal_workload_identity = λ t. elim t [
    | none ↦ failed (Error.message "no spec")
    | some account ↦ found (record { gcp_service_account = account })
  ];
  unmarshal_aws_iam = λ t. elim t [
    | none ↦ failed (Error.message "no spec")
    | some role ↦ found (record { aws_iam_role = role })
  ];
}
