-- ===== src/Plugins/AssumeRole.antt =====
-- The trust policies of plugin_iam.go: `addServiceAccountInAssumeRolePolicy`,
-- `removeServiceAccountInAssumeRolePolicy` and the functions that build the new document.
pub mod Laws
use kubeflow_profile_control.Prelude.{
  String, Bool, Option, none, some, List, [], ◌∷◌, ◌++◌, ◌==◌, ◌⧺◌, if◌then◌else◌,
}
use kubeflow_profile_control.Prelude.Dict.{Dict, lookup}
use kubeflow_profile_control.Cluster.{
  Outcome, ok, panic, Error, condition_exist_error, Reply, found, failed,
}
use kubeflow_profile_control.Plugins.Arn.{get_issuer_url_from_provider_arn}
use kubeflow_profile_control.Plugins.Json.{
  Json, null, string, array, object, items, members, of_items, of_members, strings, member_at,
  JsonLib,
}

abbrev pub aws_default_audience : String
aws_default_audience = "sts.amazonaws.com"

-- `fmt.Sprintf(AWS_TRUST_IDENTITY_SUBJECT, namespace, name)`
unfoldable pub trust_identity_subject : String → String → String
trust_identity_subject namespace name = "system:serviceaccount:" ⧺ (namespace ⧺ (":" ⧺ name))

unfoldable pub make_assume_role_with_web_identity_policy_document : String → Json → Json
unfolding of_members
make_assume_role_with_web_identity_policy_document provider_arn condition = object (
    of_members (
      ("Action", string "sts:AssumeRoleWithWebIdentity")
      ∷ ("Condition", condition)
      ∷ ("Effect", string "Allow")
      ∷ ("Principal", object (of_members (("Federated", string provider_arn) ∷ [])))
      ∷ []))

unfoldable pub make_policy_document : List Json → Json
unfolding of_members of_items
make_policy_document statements = object (
    of_members (("Statement", array (of_items statements)) ∷ ("Version", string "2012-10-17") ∷ []))

-- `MapOfInterfaces{"StringEquals": map[string][]string{…}}`
unfoldable pub string_equals : Dict Json → Json
unfolding of_members
string_equals tests = object (of_members (("StringEquals", object (of_members tests)) ∷ []))

unfoldable pub string_list : List String → Json
unfolding strings of_items
string_list ss = array (of_items (strings ss))

-- The conditions that the two functions write, for an issuer and the identities.
unfoldable pub audience_and_subjects : String → List String → Json
unfolding string_equals string_list
audience_and_subjects issuer identities = string_equals (
    (issuer ⧺ ":aud", string_list (aws_default_audience ∷ []))
    ∷ (issuer ⧺ ":sub", string_list identities)
    ∷ [])

unfoldable pub audience_only : String → Json
unfolding string_equals string_list
audience_only issuer =
    string_equals ((issuer ⧺ ":aud", string_list (aws_default_audience ∷ [])) ∷ [])

-- An empty list of identities is left out: `json.Marshal` would write it as `null`.
unfoldable pub remaining_conditions : String → List String → Json
unfolding audience_and_subjects audience_only
remaining_conditions issuer [] = audience_only issuer
remaining_conditions issuer (identity ∷ identities) =
    audience_and_subjects issuer (identity ∷ identities)

-- `json.Unmarshal` into a `map[string]interface{}`: `null` gives a nil map, and any other value
-- that is no object an error. Only "Statement" is read of it.
unfoldable pub as_map : Json → Option Json
as_map null = some null
as_map (object ms) = some (object ms)
as_map _ = none

-- `json.Unmarshal` into a `[]map[string]interface{}`, whose error is dropped: an element that is no
-- object leaves a nil map, and a value that is no array a nil slice.
unfoldable pub as_maps : List Json → List Json
unfolding as_map
as_maps [] = []
as_maps (j ∷ js) = elim (as_map j) [ none ↦ null | some m ↦ m ] ∷ as_maps js

unfoldable pub as_statements : Reply Json → List Json
unfolding as_maps items
as_statements (found (array js)) = as_maps (items js)
as_statements _ = []

-- The error of `json.Unmarshal` for a value of the wrong type.
abbrev pub unmarshal_type_error : Error
unmarshal_type_error =
    Error.message "json: cannot unmarshal into Go value of type map[string]interface {}"

unfoldable pub unmarshal_map : Reply Json → Reply Json
unfolding as_map
unmarshal_map (failed e) = failed e
unmarshal_map (found j) = elim (as_map j) [ none ↦ failed unmarshal_type_error | some m ↦ found m ]

module _ {Text : Type 0} (lib : JsonLib Text) where
  -- The loop of the addition: `none` where the identity is met, else all identities in order.
  unfoldable pub collect_identities : String → List String → List Json → Option (List String)
  collect_identities identity seen [] = some seen
  collect_identities identity seen (j ∷ js) =
      let rest = collect_identities identity (seen ++ lib.result_str j ∷ []) js in
      if lib.result_str j == identity then none else rest

  -- The loop of the removal.
  unfoldable pub other_identities : String → List Json → List String
  other_identities identity [] = []
  other_identities identity (j ∷ js) =
      let rest = other_identities identity js in
      if lib.result_str j == identity then rest else lib.result_str j ∷ rest

  -- `identities[key]`, and the values of its array where the key is there.
  unfoldable pub identities_at : String → Json → List Json
  unfolding lookup
  identities_at key statement =
      elim (lookup key
        (lib.result_map (lib.gjson_get (lib.marshal statement) "Condition.StringEquals"))) [
          | none ↦ []
          | some val ↦ lib.result_array val
        ]

  unfoldable pub federated : Text → String
  federated document = lib.result_string (lib.gjson_get document "Statement.0.Principal.Federated")

  unfoldable pub statements_of : Json → List Json
  unfolding as_statements member_at
  statements_of doc = as_statements (lib.unmarshal (lib.marshal (member_at "Statement" doc)))

  -- The end of the addition: the identity was met, or goes behind those that are there.
  append_identity : Text → String → String → Option (List String) → Outcome (Text × Option Error)
  unfolding make_policy_document make_assume_role_with_web_identity_policy_document
      audience_and_subjects
  append_identity document arn identity none = ok (document, some condition_exist_error)
  append_identity document arn identity (some seen) = ok (
    lib.marshal (
        make_policy_document (
          make_assume_role_with_web_identity_policy_document arn
            (audience_and_subjects (get_issuer_url_from_provider_arn arn) (seen ++ identity ∷ []))
          ∷ [])),
    none,
  )

  add_to_statement : Text → String → Json → Outcome (Text × Option Error)
  unfolding append_identity collect_identities identities_at federated
  add_to_statement document identity statement =
      let arn = federated document in
      append_identity document arn identity (
        collect_identities identity []
          (identities_at (get_issuer_url_from_provider_arn arn ⧺ ":sub") statement))

  -- `statements[0]`
  add_to_first : Text → String → List Json → Outcome (Text × Option Error)
  unfolding add_to_statement
  add_to_first document identity [] = panic
  add_to_first document identity (statement ∷ _) = add_to_statement document identity statement

  -- Both the text and the error are returned. `json.Marshal` does not fail at these values.
  unfoldable pub add_service_account_in_assume_role_policy :
      Text → String → String → Outcome (Text × Option Error)
  unfolding add_to_first statements_of unmarshal_map trust_identity_subject
  add_service_account_in_assume_role_policy document namespace name =
      elim (unmarshal_map (lib.unmarshal document)) [
        | failed e ↦ ok (lib.empty, some e)
        | found doc ↦
            add_to_first document (trust_identity_subject namespace name) (statements_of doc)
      ]

  remove_from_first : Text → String → List Json → Outcome (Text × Option Error)
  unfolding other_identities identities_at federated make_policy_document remaining_conditions
      make_assume_role_with_web_identity_policy_document
  remove_from_first document identity [] = panic
  remove_from_first document identity (statement ∷ _) =
      let arn = federated document in
      let issuer = get_issuer_url_from_provider_arn arn in
      ok (
        lib.marshal (
            make_policy_document (
              make_assume_role_with_web_identity_policy_document arn (
                remaining_conditions issuer
                  (other_identities identity (identities_at (issuer ⧺ ":sub") statement)))
              ∷ [])),
        none,
      )

  -- Here the error of the first `json.Unmarshal` is dropped, and leaves a nil map.
  unfoldable pub remove_service_account_in_assume_role_policy :
      Text → String → String → Outcome (Text × Option Error)
  unfolding remove_from_first statements_of unmarshal_map trust_identity_subject
  remove_service_account_in_assume_role_policy document namespace name =
      let doc : Json = elim (unmarshal_map (lib.unmarshal document)) [
        | failed _ ↦ null
        | found m ↦ m
      ] in
      remove_from_first document (trust_identity_subject namespace name) (statements_of doc)
