-- ===== src/Managed/Policy.antt =====
-- `getAuthorizationPolicy`: who may reach the workloads of a profile's namespace.
use kubeflow_profile_control.Prelude.{String, none, [], ◌∷◌, ◌⧺◌}
use kubeflow_profile_control.Api.Profile.{Profile}
use kubeflow_profile_control.Api.Access.{Source, Rule, allow, AuthorizationPolicySpec}

-- What a rule literal leaves out is empty.
abbrev zero_source : Source
zero_source = record { principals = []; request_principals = []; namespaces = [] }

abbrev zero_rule : Rule
zero_rule = record { from = []; to = []; when = [] }

unfoldable pub get_authorization_policy : Profile → String → String → AuthorizationPolicySpec
get_authorization_policy profile user_id_prefix oidc_issuer = record {
  action = allow;
  selector = none;
  rules =
      record zero_rule {
        from = record zero_source { request_principals = (oidc_issuer ⧺ "/*") ∷ [] } ∷ [];
        when =
            record {
              key = "request.auth.claims[email]";
              values = (user_id_prefix ⧺ profile.spec.owner.name) ∷ [];
            }
            ∷ [];
      }
      ∷ record zero_rule {
        when = record { key = "source.namespace"; values = profile.meta.name ∷ [] } ∷ [];
      }
      ∷ record zero_rule { from = record zero_source { namespaces = "kubeflow" ∷ [] } ∷ [] }
      ∷ record zero_rule {
        to = record { paths = "/healthz" ∷ "/metrics" ∷ "/ready" ∷ "/wait-for-drain" ∷ [] } ∷ [];
        when = record { key = "source.namespace"; values = "knative" ∷ [] } ∷ [];
      }
      ∷ record zero_rule {
        to = record { paths = "/v1/models/*" ∷ "/v2/models/*" ∷ [] } ∷ [];
        when =
            record {
              key = "request.headers[kubeflow-request-source-namespace]";
              values = profile.meta.name ∷ [];
            }
            ∷ [];
      }
      ∷ [];
}
