-- ===== src/Resources/Workloads.antt =====
-- `generateKFPDeployments`, `generateKFPServices`, `generateKFPDestinationRule`,
-- `generateKFPAuthorizationPolicy` and `generatePeerAuthentication`.
use kubeflow_profile_control.Prelude.{some, List, [], ◌∷◌}
use kubeflow_profile_control.Api.Meta.{zero_meta}
use kubeflow_profile_control.Api.Profile.{Profile}
use kubeflow_profile_control.Api.Access.{allow, AuthorizationPolicy}
use kubeflow_profile_control.Api.Workload.{
  Deployment, Service, DestinationRule, istio_mutual, PeerAuthentication, strict,
}
use kubeflow_profile_control.Plugins.Iam.{default_editor}

unfoldable pub generate_kfp_deployments : Profile → List Deployment
generate_kfp_deployments profile =
    record {
      meta = record zero_meta {
        name = "ml-pipeline-visualizationserver";
        namespace = profile.meta.name;
        labels = some (("app", "ml-pipeline-visualizationserver") ∷ []);
      };
      spec = record {
        replicas = 1;
        selector = ("app", "ml-pipeline-visualizationserver") ∷ [];
        template_labels = ("app", "ml-pipeline-visualizationserver") ∷ [];
        template_spec = record {
          service_account_name = default_editor;
          containers =
              record {
                name = "ml-pipeline-visualizationserver";
                image = "gcr.io/ml-pipeline/visualization-server:1.7.1";
                image_pull_policy = "IfNotPresent";
                ports =
                    record { name = "vis-server"; container_port = 8888; protocol = "TCP" } ∷ [];
                resources = record {
                  requests = ("cpu", "50m") ∷ ("memory", "200Mi") ∷ [];
                  limits = ("cpu", "500m") ∷ ("memory", "1Gi") ∷ [];
                };
              }
              ∷ [];
        };
      };
    }
    ∷ record {
      meta = record zero_meta {
        name = "ml-pipeline-ui-artifact";
        namespace = profile.meta.name;
        labels = some (("app", "ml-pipeline-ui-artifact") ∷ []);
      };
      spec = record {
        replicas = 1;
        selector = ("app", "ml-pipeline-ui-artifact") ∷ [];
        template_labels = ("app", "ml-pipeline-ui-artifact") ∷ [];
        template_spec = record {
          service_account_name = default_editor;
          containers =
              record {
                name = "ml-pipeline-ui-artifact";
                image = "gcr.io/ml-pipeline/frontend:1.7.1";
                image_pull_policy = "IfNotPresent";
                ports =
                    record { name = "artifact-ui"; container_port = 3000; protocol = "TCP" } ∷ [];
                resources = record {
                  requests = ("cpu", "10m") ∷ ("memory", "70Mi") ∷ [];
                  limits = ("cpu", "100m") ∷ ("memory", "500Mi") ∷ [];
                };
              }
              ∷ [];
        };
      };
    }
    ∷ []

unfoldable pub generate_kfp_services : Profile → List Service
generate_kfp_services profile =
    record {
      meta = record zero_meta {
        name = "ml-pipeline-visualizationserver";
        namespace = profile.meta.name;
        labels = some (("app", "ml-pipeline-visualizationserver") ∷ []);
      };
      spec = record {
        selector = ("app", "ml-pipeline-visualizationserver") ∷ [];
        ports =
            record {
              name = "http-visualizationserver";
              port = 8888;
              protocol = "TCP";
              target_port = 8888;
            }
            ∷ [];
      };
    }
    ∷ record {
      meta = record zero_meta {
        name = "ml-pipeline-ui-artifact";
        namespace = profile.meta.name;
        labels = some (("app", "ml-pipeline-ui-artifact") ∷ []);
      };
      spec = record {
        selector = ("app", "ml-pipeline-ui-artifact") ∷ [];
        ports =
            record { name = "http-artifact-ui"; port = 80; protocol = "TCP"; target_port = 3000 }
            ∷ [];
      };
    }
    ∷ []

unfoldable pub generate_kfp_destination_rule : Profile → DestinationRule
generate_kfp_destination_rule profile = record {
  meta = record zero_meta {
    name = "ml-pipeline-visualizationserver";
    namespace = profile.meta.name;
  };
  host = "ml-pipeline-visualizationserver";
  tls_mode = istio_mutual;
}

-- The action is left out, and its zero value is `ALLOW`.
unfoldable pub generate_kfp_authorization_policy : Profile → AuthorizationPolicy
generate_kfp_authorization_policy profile = record {
  meta = record zero_meta {
    name = "ml-pipeline-visualizationserver";
    namespace = profile.meta.name;
  };
  spec = record {
    action = allow;
    selector = some (("app", "ml-pipeline-visualizationserver") ∷ []);
    rules =
        record {
          from =
              record {
                principals = "cluster.local/ns/kubeflow/sa/ml-pipeline" ∷ [];
                request_principals = [];
                namespaces = [];
              }
              ∷ [];
          to = [];
          when = [];
        }
        ∷ [];
  };
}

unfoldable pub generate_peer_authentication : Profile → PeerAuthentication
generate_peer_authentication profile = record {
  meta = record zero_meta { name = "kserve-force-strict"; namespace = profile.meta.name };
  mtls_mode = strict;
}
