-- ===== src/Resources/Aws.antt =====
-- `generateKFPIAMPolicyACK` and `generateKFPIAMRoleACK`.
use kubeflow_profile_control.Prelude.{String, [], ◌∷◌, ◌⧺◌}
use kubeflow_profile_control.Api.Meta.{zero_meta}
use kubeflow_profile_control.Api.Profile.{Profile}
use kubeflow_profile_control.Api.Workload.{IamPolicy, IamRole}
use kubeflow_profile_control.Resources.Documents.{policy_document, assume_role_policy_document}

unfoldable pub generate_kfp_iam_policy_ack : Profile → String → String → String → IamPolicy
unfolding policy_document
generate_kfp_iam_policy_ack profile aws_account_id cluster_name pipeline_bucket =
    let policy_name = cluster_name ⧺ ("-kubeflow-s3-iam-policy-ns-" ⧺ profile.meta.name) in
    record {
      meta = record zero_meta { name = policy_name; namespace = profile.meta.name };
      description = "policy for namespace S3 access";
      name = policy_name;
      path = "/";
      policy_document = policy_document pipeline_bucket profile.meta.name;
    }

unfoldable pub generate_kfp_iam_role_ack : Profile → String → String → String → IamRole
unfolding assume_role_policy_document
generate_kfp_iam_role_ack profile aws_account_id oidc_issuer cluster_name =
    let role_name = cluster_name ⧺ ("-kubeflow-assumable-role-ns-" ⧺ profile.meta.name) in
    let policy_arn =
      "arn:aws:iam::"
      ⧺ (aws_account_id
          ⧺ (":policy/" ⧺ (cluster_name ⧺ ("-kubeflow-s3-iam-policy-ns-" ⧺ profile.meta.name)))) in
    record {
      meta = record zero_meta { name = role_name; namespace = profile.meta.name };
      assume_role_policy_document =
          assume_role_policy_document aws_account_id oidc_issuer profile.meta.name;
      max_session_duration = 3600;
      name = role_name;
      path = "/";
      policies = policy_arn ∷ [];
      tags = record { key = "kubeflow-namespace"; value = profile.meta.name } ∷ [];
    }
