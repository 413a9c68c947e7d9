-- ===== src/Resources/Settings.antt =====
-- `generateServiceAccounts`, `generateEnvoyFilter`, `generateKFPConfigmap` and
-- `generatePodDefault`.
use kubeflow_profile_control.Prelude.{String, true, some, List, [], ◌∷◌, ◌⧺◌}
use kubeflow_profile_control.Api.Meta.{zero_meta}
use kubeflow_profile_control.Api.Profile.{Profile}
use kubeflow_profile_control.Api.Access.{ServiceAccount}
use kubeflow_profile_control.Api.Workload.{EnvoyFilter, ConfigMap, PodDefault}
use kubeflow_profile_control.Plugins.Iam.{default_editor}
use kubeflow_profile_control.Resources.Documents.{lua_code, argo_artifact_repo}

abbrev pub default_viewer : String
default_viewer = "default-viewer"

unfoldable pub generate_service_accounts : Profile → String → String → List ServiceAccount
generate_service_accounts profile aws_account_id cluster_name =
    record {
      meta = record zero_meta {
        name = default_editor;
        namespace = profile.meta.name;
        annotations = some (
            (
              "eks.amazonaws.com/role-arn",
              "arn:aws:iam::"
                  ⧺ (aws_account_id
                      ⧺ (":role/"
                          ⧺ (cluster_name ⧺ ("-kubeflow-assumable-role-ns-" ⧺ profile.meta.name)))),
            )
            ∷ []);
      };
    }
    ∷ record { meta = record zero_meta { name = default_viewer; namespace = profile.meta.name } }
    ∷ []

unfoldable pub generate_envoy_filter : Profile → EnvoyFilter
unfolding lua_code
generate_envoy_filter profile = record {
  meta = record zero_meta {
    name = "add-kubeflow-source-namespace-header";
    namespace = profile.meta.name;
  };
  config_patches =
      record {
        apply_to = "HTTP_FILTER";
        context = "SIDECAR_OUTBOUND";
        filter_name = "envoy.filters.network.http_connection_manager";
        sub_filter_name = "envoy.filters.http.router";
        operation = "INSERT_BEFORE";
        value_name = "envoy.filters.http.lua";
        typed_config =
            ("@type", "type.googleapis.com/envoy.extensions.filters.http.lua.v3.Lua")
            ∷ ("inline_code", lua_code profile.meta.name)
            ∷ [];
      }
      ∷ [];
}

unfoldable pub generate_kfp_configmap : Profile → String → String → List ConfigMap
unfolding argo_artifact_repo
generate_kfp_configmap profile pipeline_bucket aws_region =
    record {
      meta = record zero_meta { name = "metadata-grpc-configmap"; namespace = profile.meta.name };
      contents =
          ("METADATA_GRPC_SERVICE_HOST", "metadata-grpc-service.kubeflow")
          ∷ ("METADATA_GRPC_SERVICE_PORT", "8080")
          ∷ [];
    }
    ∷ record {
      meta = record zero_meta { name = "kfp-launcher"; namespace = profile.meta.name };
      contents = ("defaultPipelineRoot", "s3://" ⧺ (pipeline_bucket ⧺ "/pipelines")) ∷ [];
    }
    ∷ record {
      meta = record zero_meta {
        name = "artifact-repositories";
        namespace = profile.meta.name;
        annotations =
            some (("workflows.argoproj.io/default-artifact-repository", "default-v1") ∷ []);
      };
      contents = ("default-v1", argo_artifact_repo pipeline_bucket aws_region) ∷ [];
    }
    ∷ []

unfoldable pub generate_pod_default : Profile → PodDefault
generate_pod_default profile = record {
  meta = record zero_meta { name = "access-ml-pipeline"; namespace = profile.meta.name };
  desc = "Allow access to Kubeflow Pipelines";
  env =
      record {
        name = "KF_PIPELINES_SA_TOKEN_PATH";
        value = "/var/run/secrets/kubeflow/pipelines/token";
      }
      ∷ [];
  selector = ("access-ml-pipeline", "true") ∷ [];
  volume_mounts =
      record {
        name = "volume-kf-pipeline-token";
        mount_path = "/var/run/secrets/kubeflow/pipelines";
        read_only = true;
      }
      ∷ [];
  volumes =
      record {
        name = "volume-kf-pipeline-token";
        audience = "pipelines.kubeflow.org";
        expiration_seconds = 7200;
        path = "token";
      }
      ∷ [];
}
