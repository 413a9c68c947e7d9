-- ===== src/Tests/Relabelling.antt =====
-- A run of `reconcile` at a namespace of Alice that lacks the default labels.
use kubeflow_profile_control.Prelude.{some, [], ◌∷◌}
use kubeflow_profile_control.Api.Meta.{Namespace}
use kubeflow_profile_control.Labels.{made, set_namespace_labels}
use kubeflow_profile_control.Reconcile.{owner_annotation}
use kubeflow_profile_control.Tests.Server.{config}
use kubeflow_profile_control.Tests.Reconciling.{empty_namespace}

abbrev unlabelled : Namespace
unlabelled = record empty_namespace {
  meta = record empty_namespace.meta {
    labels = some (("tier", "gold") ∷ []);
    annotations = some ((owner_annotation, "alice") ∷ []);
  };
}

-- What the server holds then, with a new version of the namespace.
abbrev labelled : Namespace
labelled =
    let merged = set_namespace_labels unlabelled (made config.spec.namespace.default_labels) in
    record merged { meta = record merged.meta { resource_version = "8" } }
