-- ===== src/Plugins/Iam.antt =====
-- `AwsIAMForServiceAccount` of plugin_iam.go. The AWS SDK and `url.QueryUnescape` are the parameter
-- `Aws`; the text of a policy document is the type of `JsonLib`.
pub mod Laws
pub mod Applies
pub mod RoundTrip
use kubeflow_profile_control.Prelude.{String, Option, none, some, List, [], ◌∷◌, ◌⧺◌, if◌then◌else◌}
use kubeflow_profile_control.Prelude.Dict.{Dict, has_key, insert, delete}
use kubeflow_profile_control.Api.Meta.{NamespacedName, ObjectMeta}
use kubeflow_profile_control.Api.Profile.{Profile}
use kubeflow_profile_control.Api.Access.{ServiceAccount}
use kubeflow_profile_control.Cluster.{
  Env, Act, State, Outcome, ok, err, panic, Error, condition_exist_error, Object, Reply, found,
  failed, pure, fail, crash, get, update, perform, return_error, ◌>>=◌, ◌>>◌,
}
use kubeflow_profile_control.Plugins.Arn.{get_iam_role_name_from_iam_role_arn}
use kubeflow_profile_control.Plugins.Json.{JsonLib}
use kubeflow_profile_control.Plugins.AssumeRole.{
  add_service_account_in_assume_role_policy, remove_service_account_in_assume_role_policy,
}

abbrev pub aws_annotation_key : String
aws_annotation_key = "eks.amazonaws.com/role-arn"

abbrev pub default_editor : String
default_editor = "default-editor"

pub record AwsIamForServiceAccount : Type 0 where
  pub aws_iam_role : String

unfoldable pub with_annotations : ServiceAccount → Option (Dict String) → ServiceAccount
with_annotations sa annotations = record sa { meta = record sa.meta { annotations = annotations } }

unfoldable pub add_iam_role_annotation : ServiceAccount → String → ServiceAccount
unfolding with_annotations
add_iam_role_annotation sa iam_role_arn = elim sa.meta.annotations [
  | none ↦ with_annotations sa (some ((aws_annotation_key, iam_role_arn) ∷ []))
  | some annotations ↦
      with_annotations sa (some (insert aws_annotation_key iam_role_arn annotations))
]

unfoldable pub remove_iam_role_annotation : ServiceAccount → String → ServiceAccount
unfolding with_annotations
remove_iam_role_annotation sa iam_role_arn = elim sa.meta.annotations [
  | none ↦ sa
  | some annotations ↦
      if has_key aws_annotation_key annotations
      then with_annotations sa (some (delete aws_annotation_key annotations))
      else sa
]

-- `session.NewSession`, whose error is given by its text; `GetRole`, which gives the role's encoded
-- policy document; `url.QueryUnescape`; and `UpdateAssumeRolePolicy`.
pub record Aws (World Text : Type 0) : Type 0 where
  pub new_session : World → Option String × World
  pub get_role : String → World → Reply Text × World
  pub query_unescape : Text → Reply Text
  pub update_assume_role_policy : String → Text → World → Option Error × World

module _ {World Text : Type 0} (env : Env World) (aws : Aws World Text) (lib : JsonLib Text) where
  after_get_service_account :
      (ServiceAccount → String → ServiceAccount)
      → String
      → Reply ServiceAccount
      → Act World (Unit {0})
  after_get_service_account annotation_func role (failed e) = fail e
  after_get_service_account annotation_func role (found sa) = do
    e ← update env.service_accounts Object.service_account (annotation_func sa role)
    return_error e

  unfoldable pub patch_annotation :
      AwsIamForServiceAccount
      → String
      → String
      → (ServiceAccount → String → ServiceAccount)
      → Act World (Unit {0})
  unfolding after_get_service_account
  patch_annotation plugin namespace ksa annotation_func = do
    r ← get env.service_accounts (record { namespace = namespace; name = ksa })
    after_get_service_account annotation_func plugin.aws_iam_role r

  -- Of the errors of the policy's update only `ConditionExistError` is looked at: after any other
  -- the text that came with it is sent, though it be the empty one, which the SDK's validation
  -- refuses: its answer is a parameter.
  write_policy : String → Outcome (Text × Option Error) → Act World (Unit {0})
  write_policy role_name (ok (document, some condition_exist_error)) = pure tt
  write_policy role_name (ok (document, _)) = do
    e ← perform (aws.update_assume_role_policy role_name document)
    return_error e
  write_policy role_name (err e) = fail e
  write_policy role_name panic = crash

  after_query_unescape :
      String → (Text → Outcome (Text × Option Error)) → Reply Text → Act World (Unit {0})
  unfolding write_policy
  after_query_unescape role_name update_assume_role_policy (failed e) = fail e
  after_query_unescape role_name update_assume_role_policy (found document) =
      write_policy role_name (update_assume_role_policy document)

  after_get_role :
      String → (Text → Outcome (Text × Option Error)) → Reply Text → Act World (Unit {0})
  unfolding after_query_unescape
  after_get_role role_name update_assume_role_policy (failed e) = fail e
  after_get_role role_name update_assume_role_policy (found encoded) =
      after_query_unescape role_name update_assume_role_policy (aws.query_unescape encoded)

  after_new_session :
      String → (Text → Outcome (Text × Option Error)) → Option String → Act World (Unit {0})
  unfolding after_get_role
  after_new_session role_name update_assume_role_policy (some e) =
      fail (Error.message ("error getting AWS session while retrieving region: " ⧺ e))
  after_new_session role_name update_assume_role_policy none = do
    r ← perform (aws.get_role role_name)
    after_get_role role_name update_assume_role_policy r

  unfoldable pub update_iam_for_service_account :
      AwsIamForServiceAccount
      → String
      → String
      → (Text → String → String → Outcome (Text × Option Error))
      → Act World (Unit {0})
  unfolding after_new_session
  update_iam_for_service_account plugin namespace name update_assume_role_policy = do
    e ← perform aws.new_session
    after_new_session (get_iam_role_name_from_iam_role_arn plugin.aws_iam_role)
        (λ document. update_assume_role_policy document namespace name) e

  unfoldable pub apply_plugin : AwsIamForServiceAccount → Profile → Act World (Unit {0})
  unfolding patch_annotation update_iam_for_service_account
  apply_plugin plugin profile = do
    patch_annotation plugin profile.meta.name default_editor add_iam_role_annotation
    update_iam_for_service_account plugin profile.meta.name default_editor
        (add_service_account_in_assume_role_policy lib)

  unfoldable pub revoke_plugin : AwsIamForServiceAccount → Profile → Act World (Unit {0})
  unfolding patch_annotation update_iam_for_service_account
  revoke_plugin plugin profile = do
    patch_annotation plugin profile.meta.name default_editor remove_iam_role_annotation
    update_iam_for_service_account plugin profile.meta.name default_editor
        (remove_service_account_in_assume_role_policy lib)
