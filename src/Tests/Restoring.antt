-- ===== src/Tests/Restoring.antt =====
-- The AWS plugin applied to Alice's editor account and revoked again.
use kubeflow_profile_control.Prelude.{String, ◌≡◌, refl, none, some, [], ◌∷◌, ◌==◌, if◌then◌else◌}
use kubeflow_profile_control.Api.Access.{ServiceAccount}
use kubeflow_profile_control.Cluster.{State, ok, Object, update_object}
use kubeflow_profile_control.Plugins.AssumeRole.{trust_identity_subject}
use kubeflow_profile_control.Plugins.AssumeRole.Laws.{trust_policy_and}
use kubeflow_profile_control.Plugins.Iam.{
  aws_annotation_key, add_iam_role_annotation, remove_iam_role_annotation, apply_plugin,
  revoke_plugin,
}
use kubeflow_profile_control.Plugins.Iam.Laws.{annotation_of}
use kubeflow_profile_control.Plugins.Iam.RoundTrip.{Reaches, revoke_plugin_restores}
use kubeflow_profile_control.Tests.Server.{Server, env, alice}
use kubeflow_profile_control.Tests.Text.{Text, text, json, json-IsJsonLib, aws}
use kubeflow_profile_control.Tests.Granting.{
  provider, plugin, bob, bob-ne-alice, editor, with_editor, granted, annotated, reads_annotated,
}

abbrev identity : String
identity = trust_identity_subject "alice-ns" "default-editor"

abbrev document : Text
document = text (trust_policy_and provider bob [])

abbrev applied : ServiceAccount
applied = add_iam_role_annotation editor "arn:aws:iam::12:role/reader"

abbrev removed : ServiceAccount
removed = remove_iam_role_annotation applied "arn:aws:iam::12:role/reader"

abbrev after_apply : Server Text
after_apply = record annotated { role_document = granted }

abbrev again : State (Server Text)
again = record { world = after_apply; events = [] }

abbrev bare : Server Text
bare = record after_apply { service_account = some removed }

applies :
    Reaches env aws json plugin alice (with_editor document).world editor applied document annotated
applies = record {
  after_read = (with_editor document).world;
  after_write = annotated;
  read = refl;
  written = refl;
  role = reads_annotated;
}

revokes : Reaches env aws json plugin alice after_apply applied removed granted bare
revokes = record {
  after_read = after_apply;
  after_write = bare;
  read = refl;
  written = refl;
  role = record {
    after_session = bare;
    encoded = granted;
    session_made = refl;
    role_read = refl;
    decoded = refl;
  };
}

revoke_plugin_restores_example :
    (apply_plugin env aws json plugin alice (with_editor document) ≡ (
      ok tt,
      record { world = after_apply; events = update_object (Object.service_account applied) ∷ [] },
    ))
    × (revoke_plugin env aws json plugin alice again ≡ (
      ok tt,
      record {
        world = record bare { role_document = document };
        events = update_object (Object.service_account removed) ∷ [];
      },
    ))
    × ((k : String)
        → annotation_of k removed
          ≡ (if aws_annotation_key == k then none else annotation_of k editor))
revoke_plugin_restores_example =
    revoke_plugin_restores env aws json plugin alice json-IsJsonLib editor applied provider bob []
      (with_editor document) again annotated after_apply bare bob-ne-alice applies refl refl revokes
