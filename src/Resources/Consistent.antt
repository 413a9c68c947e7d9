-- ===== src/Resources/Consistent.antt =====
-- How the generated objects refer to one another.
use Prim.Native.String.{len}
use mathlib.Core.List.{Memᴰ, flat_map}
use text.Mathlib.TextLemmas.{nil-append, cons-append, append_assoc}
use text.Mathlib.TextPositions.{len-append}
use kubeflow_profile_control.Prelude.{
  String, ◌≡◌, ◌≢◌, refl, sym, ap, ◌∙◌, true, false, Option, none, some, List, map, ◌⧺◌, arith, All,
  if◌then◌else◌, [], ◌∷◌, ◌+◌, ◌==◌, eq_iff,
}
use kubeflow_profile_control.Prelude.Dict.{lookup}
use kubeflow_profile_control.Api.Profile.{Profile}
use kubeflow_profile_control.Api.Access.{ServiceAccount}
use kubeflow_profile_control.Api.Workload.{
  Deployment, Service, Container, ServicePort, ContainerPort,
}
use kubeflow_profile_control.Plugins.Arn.{get_iam_role_name_from_iam_role_arn}
use kubeflow_profile_control.Plugins.Arn.Laws.{has_slash, get_iam_role_name-append}
use kubeflow_profile_control.Managed.{service_account_for}
use kubeflow_profile_control.Resources.Workloads.{generate_kfp_deployments, generate_kfp_services}
use kubeflow_profile_control.Resources.Settings.{generate_service_accounts}
use kubeflow_profile_control.Resources.Aws.{generate_kfp_iam_policy_ack, generate_kfp_iam_role_ack}

-- The service's selector is the label set of the deployment's pods, which the deployment selects
-- too, and its target ports are the ports of the pods' containers.
pub record Serves (svc : Service) (d : Deployment) : Type 0 where
  pub same_namespace : svc.meta.namespace ≡ d.meta.namespace
  pub selects_pods : svc.spec.selector ≡ d.spec.template_labels
  pub manages_pods : d.spec.selector ≡ d.spec.template_labels
  pub reaches_ports :
      map (λ (p : ServicePort). p.target_port) svc.spec.ports
      ≡ flat_map
          (λ (c : Container). map (λ (p : ContainerPort). p.container_port) c.ports)
          d.spec.template_spec.containers

-- Each service generated for a profile has a deployment generated for it in the same namespace,
-- whose pods the service selects and whose containers' ports are the service's target ports.
pub services_have_deployments :
    (profile : Profile)
    → All
        (λ svc. (d : Deployment) × Memᴰ d (generate_kfp_deployments profile) × Serves svc d)
        (generate_kfp_services profile)
unfolding generate_kfp_services generate_kfp_deployments flat_map
services_have_deployments profile = (
  (
    _,
    Memᴰ.head refl,
    record {
      same_namespace = refl;
      selects_pods = refl;
      manages_pods = refl;
      reaches_ports = refl;
    },
  ),
  (
    (
      _,
      Memᴰ.tail (Memᴰ.head refl),
      record {
        same_namespace = refl;
        selects_pods = refl;
        manages_pods = refl;
        reaches_ports = refl;
      },
    ),
    tt,
  ),
)

-- The role that a service account is annotated with.
abbrev role_of : ServiceAccount → Option String
role_of sa = elim sa.meta.annotations [
  | none ↦ none
  | some annotations ↦ elim (lookup "eks.amazonaws.com/role-arn" annotations) [
    | none ↦ none
    | some arn ↦ some (get_iam_role_name_from_iam_role_arn arn)
  ]
]

-- And the account of a name among several.
abbrev pub annotated_role : String → List ServiceAccount → Option String
annotated_role name [] = none
annotated_role name (sa ∷ rest) =
    if sa.meta.name == name then role_of sa else annotated_role name rest

has_slash-append : (s t : String) → has_slash (s ⧺ t) ≡ (if has_slash s then true else has_slash t)
has_slash-append Prim.Native.String.[] t = rw nil-append
has_slash-append (Prim.Native.String.◌∷◌ c s) t =
    rw cons-append (ground (arith, has_slash-append s t))

role_of_arn :
    (aws_account_id name : String)
    → has_slash name ≡ false
    → get_iam_role_name_from_iam_role_arn ("arn:aws:iam::" ⧺ (aws_account_id ⧺ (":role/" ⧺ name)))
      ≡ name
role_of_arn aws_account_id name h =
    ap get_iam_role_name_from_iam_role_arn (
      ap (λ x. "arn:aws:iam::" ⧺ (aws_account_id ⧺ x)) (append_assoc ":role" "/" name)
      ∙ ap (λ x. "arn:aws:iam::" ⧺ x) (sym (append_assoc aws_account_id ":role" ("/" ⧺ name)))
      ∙ sym (append_assoc "arn:aws:iam::" (aws_account_id ⧺ ":role") ("/" ⧺ name)))
    ∙ get_iam_role_name-append ("arn:aws:iam::" ⧺ (aws_account_id ⧺ ":role")) name h

role_name_has_slash :
    (cluster ns : String)
    → has_slash cluster ≡ false
    → has_slash ns ≡ false
    → has_slash (cluster ⧺ ("-kubeflow-assumable-role-ns-" ⧺ ns)) ≡ false
role_name_has_slash cluster ns h k =
    has_slash-append cluster ("-kubeflow-assumable-role-ns-" ⧺ ns)
    ∙ ap (λ b. if b then true else has_slash ("-kubeflow-assumable-role-ns-" ⧺ ns)) h
    ∙ has_slash-append "-kubeflow-assumable-role-ns-" ns
    ∙ k

-- The generated account `default-editor` is annotated with the ARN of a role whose name, as the IAM plugin
-- reads it from the ARN, is the name of the generated role, and that role's one policy is named by
-- the account, path and name of the generated policy; the cluster's and the profile's names have no
-- slash.
pub generated_roles_agree :
    (profile : Profile)
    → (aws_account_id oidc_issuer cluster_name pipeline_bucket : String)
    → has_slash cluster_name ≡ false
    → has_slash profile.meta.name ≡ false
    → (annotated_role "default-editor"
          (generate_service_accounts profile aws_account_id cluster_name)
        ≡ some (generate_kfp_iam_role_ack profile aws_account_id oidc_issuer cluster_name).name)
      × ((generate_kfp_iam_role_ack profile aws_account_id oidc_issuer cluster_name).policies
          ≡ ("arn:aws:iam::"
              ⧺ (aws_account_id
                  ⧺ (":policy"
                      ⧺ ((generate_kfp_iam_policy_ack profile aws_account_id cluster_name
                            pipeline_bucket).path
                          ⧺ (generate_kfp_iam_policy_ack profile aws_account_id cluster_name
                              pipeline_bucket).name))))
            ∷ [])
unfolding generate_service_accounts generate_kfp_iam_role_ack generate_kfp_iam_policy_ack lookup
generated_roles_agree profile aws_account_id oidc_issuer cluster_name pipeline_bucket h k = (
  ap some (
      role_of_arn aws_account_id
        (cluster_name ⧺ ("-kubeflow-assumable-role-ns-" ⧺ profile.meta.name))
        (role_name_has_slash cluster_name profile.meta.name h k)),
  ap (λ x. ("arn:aws:iam::" ⧺ (aws_account_id ⧺ x)) ∷ [])
      (append_assoc ":policy" "/"
        (cluster_name ⧺ ("-kubeflow-s3-iam-policy-ns-" ⧺ profile.meta.name))),
)

role_lens :
    (cluster ns : String)
    → ("kubeflow-assumable-role-ns-" ⧺ ns) ≢ (cluster ⧺ ("-kubeflow-assumable-role-ns-" ⧺ ns))
role_lens cluster ns e =
    let e₁ =
      sym (len-append "kubeflow-assumable-role-ns-" ns)
      ∙ ap len e
      ∙ len-append cluster ("-kubeflow-assumable-role-ns-" ⧺ ns)
      ∙ ap (λ k. len cluster + k) (len-append "-kubeflow-assumable-role-ns-" ns) in
    omega arith

short_role_of_arn :
    (aws_account_id ns : String)
    → has_slash ns ≡ false
    → get_iam_role_name_from_iam_role_arn
        ("arn:aws:iam::" ⧺ (aws_account_id ⧺ (":role/kubeflow-assumable-role-ns-" ⧺ ns)))
      ≡ "kubeflow-assumable-role-ns-" ⧺ ns
short_role_of_arn aws_account_id ns h =
    ap (λ x. get_iam_role_name_from_iam_role_arn ("arn:aws:iam::" ⧺ (aws_account_id ⧺ x)))
      (append_assoc ":role/" "kubeflow-assumable-role-ns-" ns)
    ∙ role_of_arn aws_account_id ("kubeflow-assumable-role-ns-" ⧺ ns)
        (has_slash-append "kubeflow-assumable-role-ns-" ns ∙ h)

-- The service account that `updateServiceAccount` makes for a profile is annotated with a role by
-- the name of `kubeflow-assumable-role-ns-` and the profile's name, and that is never the generated
-- role: it lacks the cluster's name and the dash after it; the profile's name has no slash.
pub service_account_for_other_role :
    (profile : Profile)
    → (sa_name aws_account_id oidc_issuer cluster_name : String)
    → has_slash profile.meta.name ≡ false
    → (annotated_role sa_name (service_account_for profile sa_name aws_account_id ∷ [])
        ≡ some ("kubeflow-assumable-role-ns-" ⧺ profile.meta.name))
      × ("kubeflow-assumable-role-ns-" ⧺ profile.meta.name
          ≢ (generate_kfp_iam_role_ack profile aws_account_id oidc_issuer cluster_name).name)
unfolding service_account_for generate_kfp_iam_role_ack lookup
service_account_for_other_role profile sa_name aws_account_id oidc_issuer cluster_name h = (
  rw ((eq_iff sa_name sa_name).1 refl)
      (ap some (short_role_of_arn aws_account_id profile.meta.name h)),
  role_lens cluster_name profile.meta.name,
)
