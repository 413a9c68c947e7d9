-- ===== src/Plugins/Iam/RoundTrip.antt =====
-- The AWS plugin's `ApplyPlugin` and then its `RevokePlugin`.
use kubeflow_profile_control.Prelude.{
  String, ◌≡◌, ◌∙◌, arith, ap, refl, false, none, List, [], ◌∷◌, ◌++◌, ◌==◌, ◌⧺◌, if◌then◌else◌,
}
use kubeflow_profile_control.Prelude.Dict.{lookup}
use kubeflow_profile_control.Labels.{made}
use kubeflow_profile_control.Api.Meta.{NamespacedName}
use kubeflow_profile_control.Api.Profile.{Profile}
use kubeflow_profile_control.Api.Access.{ServiceAccount}
use kubeflow_profile_control.Cluster.{Env, State, ok, Object, update_object, found}
use kubeflow_profile_control.Reconcile.Takeover.{ended}
use kubeflow_profile_control.Slices.{contains_string, remove_string}
use kubeflow_profile_control.Slices.Laws.{remove_string_added}
use kubeflow_profile_control.Plugins.Arn.{get_iam_role_name_from_iam_role_arn}
use kubeflow_profile_control.Plugins.Json.{Json, JsonLib, IsJsonLib}
use kubeflow_profile_control.Plugins.AssumeRole.{trust_identity_subject}
use kubeflow_profile_control.Plugins.AssumeRole.Laws.{trust_policy, trust_policy_and}
use kubeflow_profile_control.Plugins.Iam.{
  aws_annotation_key, default_editor, AwsIamForServiceAccount, add_iam_role_annotation,
  remove_iam_role_annotation, Aws, after_get_service_account, apply_plugin, revoke_plugin,
}
use kubeflow_profile_control.Plugins.Iam.Laws.{
  annotation_of, annotation_of-add, annotation_of-remove, IsReannotated, IsReannotated-remove,
  ReadsRole, update_iam_removes,
}
use kubeflow_profile_control.Plugins.Iam.Applies.{apply_plugin_trusts}

abbrev editor_key : Profile → NamespacedName
editor_key profile = record { namespace = profile.meta.name; name = default_editor }

module _ {World Text : Type 0} (env : Env World) (aws : Aws World Text) (lib : JsonLib Text)
    (plugin : AwsIamForServiceAccount) (profile : Profile) where
  -- A run from the world `before` read the editor account `sa`, wrote it as `sa'`, and read the
  -- role's document; that left the world `after`.
  pub record Reaches (before : World) (sa sa' : ServiceAccount) (document : Text) (after : World)
      : Type 0 where
    pub after_read : World
    pub after_write : World
    pub read : env.service_accounts.get (editor_key profile) before ≡ (found sa, after_read)
    pub written : env.service_accounts.update sa' after_read ≡ (none, after_write)
    pub role :
        ReadsRole aws
          (get_iam_role_name_from_iam_role_arn plugin.aws_iam_role)
          after_write
          document
          after

  pub revoke_plugin_distrusts :
      IsJsonLib lib
      → (sa : ServiceAccount) (arn : String) (identities : List String) (others : List Json)
        (s : State World) (w : World)
      → let removed = remove_iam_role_annotation sa plugin.aws_iam_role in
        Reaches s.world sa removed (lib.marshal (trust_policy_and arn identities others)) w
        → let remaining =
            remove_string identities
              ("system:serviceaccount:" ⧺ (profile.meta.name ⧺ (":" ⧺ "default-editor"))) in
          let (e, w') =
            aws.update_assume_role_policy
              (get_iam_role_name_from_iam_role_arn plugin.aws_iam_role)
              (lib.marshal (trust_policy arn remaining))
              w in
          (revoke_plugin env aws lib plugin profile s ≡ (
            ended e,
            record {
              world = w';
              events = update_object (Object.service_account removed) ∷ s.events;
            },
          ))
          × ((k : String)
              → annotation_of k removed
                ≡ (if "eks.amazonaws.com/role-arn" == k then none else annotation_of k sa))
          × IsReannotated sa removed
  unfolding revoke_plugin after_get_service_account trust_identity_subject
  revoke_plugin_distrusts laws sa arn identities others s w r = (
    rw r.read (
        rw r.written (
          update_iam_removes env aws lib laws plugin profile.meta.name default_editor arn identities
            others
            (record {
              world = r.after_write;
              events =
                  update_object
                    (Object.service_account (remove_iam_role_annotation sa plugin.aws_iam_role))
                  ∷ s.events;
            })
            w r.role)),
    annotation_of-remove sa plugin.aws_iam_role,
    IsReannotated-remove sa plugin.aws_iam_role,
  )

  -- If an `ApplyPlugin` reads the editor account and the role, whose first statement the controller
  -- wrote and lacks the account, and its writes succeed, and then a `RevokePlugin` reads the
  -- account with the annotations and the role with the document that the first one wrote, then
  -- the second writes the role with that statement as it was, and no other, and the account
  -- without the role's annotation and with every other annotation that it had at first. It ends
  -- with the error of its last write, if any.
  pub revoke_plugin_restores :
      IsJsonLib lib
      → (sa sa' : ServiceAccount) (arn : String) (identities : List String) (others : List Json)
        (s t : State World) (w w' v : World)
      → let role_name = get_iam_role_name_from_iam_role_arn plugin.aws_iam_role in
        let identity = trust_identity_subject profile.meta.name default_editor in
        let document = lib.marshal (trust_policy arn identities) in
        let granted = lib.marshal (trust_policy arn (identities ++ identity ∷ [])) in
        let applied = add_iam_role_annotation sa plugin.aws_iam_role in
        let removed = remove_iam_role_annotation sa' plugin.aws_iam_role in
        contains_string identities identity ≡ false
        → Reaches s.world sa applied (lib.marshal (trust_policy_and arn identities others)) w
        → aws.update_assume_role_policy role_name granted w ≡ (none, w')
        → sa'.meta.annotations ≡ applied.meta.annotations
        → Reaches t.world sa' removed granted v
        → let (e, v') = aws.update_assume_role_policy role_name document v in
          (apply_plugin env aws lib plugin profile s ≡ (
            ok tt,
            record {
              world = w';
              events = update_object (Object.service_account applied) ∷ s.events;
            },
          ))
          × (revoke_plugin env aws lib plugin profile t ≡ (
            ended e,
            record {
              world = v';
              events = update_object (Object.service_account removed) ∷ t.events;
            },
          ))
          × ((k : String)
              → annotation_of k removed
                ≡ (if aws_annotation_key == k then none else annotation_of k sa))
  unfolding trust_identity_subject
  revoke_plugin_restores laws sa sa' arn identities others s t w w' v fresh a granted same r = (
    (apply_plugin_trusts env aws lib laws plugin profile sa arn identities others s a.after_read
          a.after_write w a.read a.written a.role).0
        ∙ rw fresh (rw granted refl),
    (revoke_plugin_distrusts laws sa' arn _ [] t v r).0
        ∙ rw (remove_string_added identities _ fresh) refl,
    λ k.
        let kept : annotation_of k sa'
            ≡ annotation_of k (add_iam_role_annotation sa plugin.aws_iam_role) =
          ap (λ annotations. lookup k (made annotations)) same in
        ground (
          arith,
          annotation_of-remove sa' plugin.aws_iam_role k,
          annotation_of-add sa plugin.aws_iam_role k,
        ),
  )
