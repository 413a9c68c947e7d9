-- ===== src/Tests/Granting.antt =====
-- The AWS plugin at a role with a trust policy.
use kubeflow_profile_control.Plugins.Iam.Applies.{apply_plugin_trusts}
use kubeflow_profile_control.Prelude.{
  String, ◌≡◌, refl, false, none, some, List, [], ◌∷◌, ◌++◌, ◌==◌, if◌then◌else◌,
}
use kubeflow_profile_control.Api.Meta.{zero_meta}
use kubeflow_profile_control.Api.Access.{ServiceAccount}
use kubeflow_profile_control.Cluster.{
  State, ok, condition_exist_error, Object, Event, update_object,
}
use kubeflow_profile_control.Slices.{contains_string}
use kubeflow_profile_control.Plugins.Arn.{get_iam_role_name_from_iam_role_arn}
use kubeflow_profile_control.Plugins.Json.{null}
use kubeflow_profile_control.Plugins.AssumeRole.{
  trust_identity_subject, add_service_account_in_assume_role_policy,
}
use kubeflow_profile_control.Plugins.AssumeRole.Laws.{
  trust_policy, trust_policy_and, add-trust_policy,
}
use kubeflow_profile_control.Plugins.Iam.{
  AwsIamForServiceAccount, add_iam_role_annotation, apply_plugin,
}
use kubeflow_profile_control.Plugins.Iam.Laws.{annotation_of, IsReannotated, ReadsRole}
use kubeflow_profile_control.Tests.Server.{Server, server, env, alice}
use kubeflow_profile_control.Tests.Text.{Text, text, json, json-IsJsonLib, aws}

abbrev pub provider : String
provider = "arn:aws:iam::12:oidc-provider/oidc.eks.example/id/A"

abbrev pub plugin : AwsIamForServiceAccount
plugin = record { aws_iam_role = "arn:aws:iam::12:role/reader" }

abbrev pub bob : List String
bob = trust_identity_subject "bob-ns" "default-editor" ∷ []

pub bob-ne-alice : contains_string bob (trust_identity_subject "alice-ns" "default-editor") ≡ false
unfolding contains_string trust_identity_subject
bob-ne-alice = refl

add-trust_policy_example :
    add_service_account_in_assume_role_policy json
      (text (trust_policy_and provider bob (null ∷ [])))
      "alice-ns"
      "default-editor"
    ≡ (if contains_string bob (trust_identity_subject "alice-ns" "default-editor")
        then ok (text (trust_policy_and provider bob (null ∷ [])), some condition_exist_error)
        else ok (
          text (
              trust_policy provider
                (bob ++ trust_identity_subject "alice-ns" "default-editor" ∷ [])),
          none,
        ))
add-trust_policy_example =
    add-trust_policy json json-IsJsonLib provider bob (null ∷ []) "alice-ns" "default-editor"

abbrev role_with : Text → State (Server Text)
role_with document = record { world = server document; events = [] }

reads :
    (document : Text)
    → ReadsRole aws
        (get_iam_role_name_from_iam_role_arn plugin.aws_iam_role)
        (server document)
        document
        (server document)
reads document = record {
  after_session = server document;
  encoded = document;
  session_made = refl;
  role_read = refl;
  decoded = refl;
}

abbrev pub editor : ServiceAccount
editor = record {
  meta = record zero_meta { name = "default-editor"; annotations = some (("a", "1") ∷ []) };
}

abbrev pub with_editor : Text → State (Server Text)
with_editor document = record {
  world = record (server document) { service_account = some editor };
  events = [];
}

abbrev pub granted : Text
granted =
    text (trust_policy provider (bob ++ trust_identity_subject "alice-ns" "default-editor" ∷ []))

abbrev pub annotated : Server Text
annotated = record (server (text (trust_policy_and provider bob []))) {
  service_account = some (add_iam_role_annotation editor "arn:aws:iam::12:role/reader");
}

pub reads_annotated :
    ReadsRole aws
      (get_iam_role_name_from_iam_role_arn plugin.aws_iam_role)
      annotated
      (text (trust_policy_and provider bob []))
      annotated
reads_annotated = record {
  after_session = annotated;
  encoded = text (trust_policy_and provider bob []);
  session_made = refl;
  role_read = refl;
  decoded = refl;
}

abbrev annotation_written : List Event
annotation_written =
    update_object
      (Object.service_account (add_iam_role_annotation editor "arn:aws:iam::12:role/reader"))
    ∷ []

apply_plugin_trusts_example :
    (apply_plugin env aws json plugin alice (with_editor (text (trust_policy_and provider bob [])))
      ≡ (if contains_string bob "system:serviceaccount:alice-ns:default-editor"
          then (ok tt, record { world = annotated; events = annotation_written })
          else (
            ok tt,
            record {
              world = record annotated { role_document = granted };
              events = annotation_written;
            },
          )))
    × ((k : String)
        → annotation_of k (add_iam_role_annotation editor plugin.aws_iam_role) ≡ (
            if "eks.amazonaws.com/role-arn" == k
            then some "arn:aws:iam::12:role/reader"
            else annotation_of k editor))
    × IsReannotated editor (add_iam_role_annotation editor plugin.aws_iam_role)
unfolding trust_identity_subject
apply_plugin_trusts_example =
    apply_plugin_trusts env aws json json-IsJsonLib plugin alice editor provider bob []
      (with_editor (text (trust_policy_and provider bob [])))
      (record (server (text (trust_policy_and provider bob []))) { service_account = some editor })
      annotated annotated refl refl reads_annotated
