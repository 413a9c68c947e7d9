-- ===== src/Tests/Generating.antt =====
-- The generated objects of a profile.
use kubeflow_profile_control.Prelude.{◌≡◌, ◌≢◌, refl, some, [], ◌∷◌, ◌⧺◌, All}
use mathlib.Core.List.{Memᴰ}
use kubeflow_profile_control.Api.Workload.{Deployment}
use kubeflow_profile_control.Managed.{service_account_for}
use kubeflow_profile_control.Resources.Workloads.{generate_kfp_deployments, generate_kfp_services}
use kubeflow_profile_control.Resources.Settings.{generate_service_accounts}
use kubeflow_profile_control.Resources.Aws.{generate_kfp_iam_policy_ack, generate_kfp_iam_role_ack}
use kubeflow_profile_control.Resources.Consistent.{
  Serves, services_have_deployments, annotated_role, generated_roles_agree,
  service_account_for_other_role,
}
use kubeflow_profile_control.Tests.Server.{alice}

services_have_deployments_example :
    All
      (λ svc. (d : Deployment) × Memᴰ d (generate_kfp_deployments alice) × Serves svc d)
      (generate_kfp_services alice)
services_have_deployments_example = services_have_deployments alice

generated_roles_agree_example :
    (annotated_role "default-editor" (generate_service_accounts alice "12" "demo")
      ≡ some (generate_kfp_iam_role_ack alice "12" "oidc" "demo").name)
    × ((generate_kfp_iam_role_ack alice "12" "oidc" "demo").policies
        ≡ ("arn:aws:iam::"
            ⧺ ("12"
                ⧺ (":policy"
                    ⧺ ((generate_kfp_iam_policy_ack alice "12" "demo" "bucket").path
                        ⧺ (generate_kfp_iam_policy_ack alice "12" "demo" "bucket").name))))
          ∷ [])
generated_roles_agree_example = generated_roles_agree alice "12" "oidc" "demo" "bucket" refl refl

service_account_for_other_role_example :
    (annotated_role "default-editor" (service_account_for alice "default-editor" "12" ∷ [])
      ≡ some "kubeflow-assumable-role-ns-alice-ns")
    × ("kubeflow-assumable-role-ns-alice-ns"
        ≢ (generate_kfp_iam_role_ack alice "12" "oidc" "demo").name)
service_account_for_other_role_example =
    service_account_for_other_role alice "default-editor" "12" "oidc" "demo" refl
