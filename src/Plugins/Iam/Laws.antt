-- ===== src/Plugins/Iam/Laws.antt =====
-- What the AWS plugin does to a service account and to a role's trust policy.
use kubeflow_profile_control.Prelude.{
  String, ◌≡◌, refl, Option, none, some, List, [], ◌∷◌, ◌++◌, ◌==◌, arith, eq_iff, Option-cases,
  inl, inr, if◌then◌else◌,
}
use kubeflow_profile_control.Prelude.Dict.{lookup, has_key, lookup-insert, lookup-delete}
use kubeflow_profile_control.Labels.{made}
use kubeflow_profile_control.Api.Access.{ServiceAccount}
use kubeflow_profile_control.Cluster.{State, Outcome, ok, Error, found, Env}
use kubeflow_profile_control.Reconcile.Takeover.{ended}
use kubeflow_profile_control.Slices.{contains_string, remove_string}
use kubeflow_profile_control.Plugins.Arn.{get_iam_role_name_from_iam_role_arn}
use kubeflow_profile_control.Plugins.Json.{Json, JsonLib, IsJsonLib}
use kubeflow_profile_control.Plugins.AssumeRole.{
  trust_identity_subject, add_service_account_in_assume_role_policy,
  remove_service_account_in_assume_role_policy,
}
use kubeflow_profile_control.Plugins.AssumeRole.Laws.{
  trust_policy, trust_policy_and, add-trust_policy, remove-trust_policy,
}
use kubeflow_profile_control.Plugins.Iam.{
  aws_annotation_key, AwsIamForServiceAccount, add_iam_role_annotation, remove_iam_role_annotation,
  Aws, write_policy, update_iam_for_service_account,
}

abbrev pub annotation_of : String → ServiceAccount → Option String
annotation_of k sa = lookup k (made sa.meta.annotations)

pub annotation_of-add :
    (sa : ServiceAccount) (arn k : String)
    → annotation_of k (add_iam_role_annotation sa arn)
      ≡ (if aws_annotation_key == k then some arn else annotation_of k sa)
unfolding add_iam_role_annotation lookup
annotation_of-add sa arn k = elim (Option-cases sa.meta.annotations) [
  | inl e ↦ rw e
  | inr (m, e) ↦ rw e (lookup-insert aws_annotation_key k arn m)
]

pub annotation_of-remove :
    (sa : ServiceAccount) (arn k : String)
    → annotation_of k (remove_iam_role_annotation sa arn)
      ≡ (if aws_annotation_key == k then none else annotation_of k sa)
unfolding remove_iam_role_annotation has_key
annotation_of-remove sa arn k = elim (Option-cases sa.meta.annotations) [
  | inl e ↦ rw e (unfold lookup in ground arith)
  | inr (m, e) ↦
      rw e (ground (arith, eq_iff aws_annotation_key k, lookup-delete aws_annotation_key k m))
]

-- Nothing else of a service account is another.
abbrev pub IsReannotated : ServiceAccount → ServiceAccount → Type 0
IsReannotated old new =
    new ≡ record old { meta = record old.meta { annotations = new.meta.annotations } }

pub IsReannotated-add :
    (sa : ServiceAccount) (arn : String) → IsReannotated sa (add_iam_role_annotation sa arn)
unfolding add_iam_role_annotation
IsReannotated-add sa arn = elim (Option-cases sa.meta.annotations) [
  | inl e ↦ rw e refl
  | inr (m, e) ↦ rw e refl
]

pub IsReannotated-remove :
    (sa : ServiceAccount) (arn : String) → IsReannotated sa (remove_iam_role_annotation sa arn)
unfolding remove_iam_role_annotation
IsReannotated-remove sa arn = elim (Option-cases sa.meta.annotations) [
  | inl e ↦ rw e refl
  | inr (m, e) ↦ rw e (ground arith)
]

-- Adding the role's annotation to a service account sets it and leaves every other annotation
-- alone; removing it after that, with any role, takes the annotation away and leaves every other
-- alone.
iam_role_annotation :
    (sa : ServiceAccount) (arn arn' k : String)
    → let applied = add_iam_role_annotation sa arn in
      (annotation_of k applied ≡ (if aws_annotation_key == k then some arn else annotation_of k sa))
      × (annotation_of k (remove_iam_role_annotation applied arn')
          ≡ (if aws_annotation_key == k then none else annotation_of k sa))
iam_role_annotation sa arn arn' k = (
  annotation_of-add sa arn k,
  ground (
    arith,
    annotation_of-add sa arn k,
    annotation_of-remove (add_iam_role_annotation sa arn) arn' k,
  ),
)

-- A session was made, the role was read, and its document was decoded.
pub record ReadsRole {World Text : Type 0} (aws : Aws World Text) (role_name : String)
    (before : World) (document : Text) (after : World) : Type 0 where
  pub after_session : World
  pub encoded : Text
  pub session_made : aws.new_session before ≡ (none, after_session)
  pub role_read : aws.get_role role_name after_session ≡ (found encoded, after)
  pub decoded : aws.query_unescape encoded ≡ found document

module _ {World Text : Type 0} (env : Env World) (aws : Aws World Text) (lib : JsonLib Text) where
  update_iam-ReadsRole :
      (plugin : AwsIamForServiceAccount) (namespace name : String)
      (f : Text → String → String → Outcome (Text × Option Error)) (s : State World)
      {document : Text} {w : World}
      → ReadsRole aws (get_iam_role_name_from_iam_role_arn plugin.aws_iam_role) s.world document w
      → update_iam_for_service_account env aws lib plugin namespace name f s
        ≡ write_policy env aws lib
            (get_iam_role_name_from_iam_role_arn plugin.aws_iam_role)
            (f document namespace name)
            (record s { world = w })
  unfolding update_iam_for_service_account
  update_iam-ReadsRole plugin namespace name f s r =
      rw r.session_made (rw r.role_read (rw r.decoded))

  -- If the role's document has a first statement that the controller wrote, the update that grants
  -- access writes the role once, with the service account's identity appended to that statement and
  -- no other statement; where the identity is there already, it writes nothing. It ends with the
  -- error of its write, if any.
  pub update_iam_adds :
      IsJsonLib lib
      → (plugin : AwsIamForServiceAccount) (namespace name arn : String) (identities : List String)
        (others : List Json) (s : State World) (w : World)
      → ReadsRole aws
          (get_iam_role_name_from_iam_role_arn plugin.aws_iam_role)
          s.world
          (lib.marshal (trust_policy_and arn identities others))
          w
      → let role_name = get_iam_role_name_from_iam_role_arn plugin.aws_iam_role in
        let identity = trust_identity_subject namespace name in
        let (e, w') =
          aws.update_assume_role_policy role_name
            (lib.marshal (trust_policy arn (identities ++ identity ∷ [])))
            w in
        update_iam_for_service_account env aws lib plugin namespace name
          (add_service_account_in_assume_role_policy lib)
          s
        ≡ (if contains_string identities identity
            then (ok tt, record s { world = w })
            else (ended e, record s { world = w' }))
  unfolding write_policy
  update_iam_adds laws plugin namespace name arn identities others s w r =
      rw
        (update_iam-ReadsRole plugin namespace name (add_service_account_in_assume_role_policy lib)
          s r)
        (rw (add-trust_policy lib laws arn identities others namespace name) (ground arith))

  -- The update that takes access away writes the role once, whether the identity is there or not.
  pub update_iam_removes :
      IsJsonLib lib
      → (plugin : AwsIamForServiceAccount) (namespace name arn : String) (identities : List String)
        (others : List Json) (s : State World) (w : World)
      → ReadsRole aws
          (get_iam_role_name_from_iam_role_arn plugin.aws_iam_role)
          s.world
          (lib.marshal (trust_policy_and arn identities others))
          w
      → let role_name = get_iam_role_name_from_iam_role_arn plugin.aws_iam_role in
        let remaining = remove_string identities (trust_identity_subject namespace name) in
        let (e, w') =
          aws.update_assume_role_policy role_name (lib.marshal (trust_policy arn remaining)) w in
        update_iam_for_service_account env aws lib plugin namespace name
          (remove_service_account_in_assume_role_policy lib)
          s
        ≡ (ended e, record s { world = w' })
  unfolding write_policy
  update_iam_removes laws plugin namespace name arn identities others s w r =
      rw
        (update_iam-ReadsRole plugin namespace name
          (remove_service_account_in_assume_role_policy lib) s r)
        (rw (remove-trust_policy lib laws arn identities others namespace name) (ground arith))
