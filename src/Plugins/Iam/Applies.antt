-- ===== src/Plugins/Iam/Applies.antt =====
-- The whole of the AWS plugin's `ApplyPlugin`.
use kubeflow_profile_control.Prelude.{
  String, ◌≡◌, ◌==◌, ◌⧺◌, none, some, List, [], ◌∷◌, ◌++◌, if◌then◌else◌,
}
use kubeflow_profile_control.Api.Profile.{Profile}
use kubeflow_profile_control.Api.Access.{ServiceAccount}
use kubeflow_profile_control.Cluster.{Env, State, ok, Object, update_object, found}
use kubeflow_profile_control.Reconcile.Takeover.{ended}
use kubeflow_profile_control.Slices.{contains_string}
use kubeflow_profile_control.Plugins.Arn.{get_iam_role_name_from_iam_role_arn}
use kubeflow_profile_control.Plugins.Json.{Json, JsonLib, IsJsonLib}
use kubeflow_profile_control.Plugins.AssumeRole.{trust_identity_subject}
use kubeflow_profile_control.Plugins.AssumeRole.Laws.{trust_policy, trust_policy_and}
use kubeflow_profile_control.Plugins.Iam.{
  default_editor, AwsIamForServiceAccount, add_iam_role_annotation, Aws, after_get_service_account,
  apply_plugin,
}
use kubeflow_profile_control.Plugins.Iam.Laws.{
  annotation_of, annotation_of-add, IsReannotated, IsReannotated-add, ReadsRole, update_iam_adds,
}

module _ {World Text : Type 0} (env : Env World) (aws : Aws World Text) (lib : JsonLib Text) where
  -- If the profile's editor account is read and written, and the role's document is read and has a
  -- first statement that the controller wrote, then `ApplyPlugin` makes these writes and no other:
  -- the account with the role in the annotation `eks.amazonaws.com/role-arn`, with every other
  -- annotation that it had and with nothing else changed; and then, where that statement lacks the
  -- identity `system:serviceaccount:<namespace>:default-editor`, the role once, with the identity
  -- behind the others in that statement and no other statement. It ends with the error of the
  -- second write, if any.
  pub apply_plugin_trusts :
      IsJsonLib lib
      → (plugin : AwsIamForServiceAccount) (profile : Profile) (sa : ServiceAccount) (arn : String)
        (identities : List String) (others : List Json) (s : State World) (w₁ w₂ w₃ : World)
      → env.service_accounts.get
          (record { namespace = profile.meta.name; name = default_editor })
          s.world
        ≡ (found sa, w₁)
      → env.service_accounts.update (add_iam_role_annotation sa plugin.aws_iam_role) w₁ ≡ (none, w₂)
      → ReadsRole aws
          (get_iam_role_name_from_iam_role_arn plugin.aws_iam_role)
          w₂
          (lib.marshal (trust_policy_and arn identities others))
          w₃
      → let identity = "system:serviceaccount:" ⧺ (profile.meta.name ⧺ (":" ⧺ "default-editor")) in
        let added = add_iam_role_annotation sa plugin.aws_iam_role in
        let (e, w₄) =
          aws.update_assume_role_policy
            (get_iam_role_name_from_iam_role_arn plugin.aws_iam_role)
            (lib.marshal (trust_policy arn (identities ++ identity ∷ [])))
            w₃ in
        let events = update_object (Object.service_account added) ∷ s.events in
        (apply_plugin env aws lib plugin profile s ≡ (
          if contains_string identities identity
          then (ok tt, record { world = w₃; events = events })
          else (ended e, record { world = w₄; events = events })))
        × ((k : String)
            → annotation_of k added ≡ (
                if "eks.amazonaws.com/role-arn" == k
                then some plugin.aws_iam_role
                else annotation_of k sa))
        × IsReannotated sa added
  unfolding apply_plugin after_get_service_account trust_identity_subject
  apply_plugin_trusts laws plugin profile sa arn identities others s w₁ w₂ w₃ read written r = (
    rw read (
        rw written (
          update_iam_adds env aws lib laws plugin profile.meta.name default_editor arn identities
            others
            (record {
              world = w₂;
              events =
                  update_object
                    (Object.service_account (add_iam_role_annotation sa plugin.aws_iam_role))
                  ∷ s.events;
            })
            w₃ r)),
    annotation_of-add sa plugin.aws_iam_role,
    IsReannotated-add sa plugin.aws_iam_role,
  )
