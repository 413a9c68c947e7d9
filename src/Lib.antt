-- ===== src/Lib.antt =====
-- The profile controller of the repository, as functions on explicit state.
--
-- A Profile names a namespace and its owner. The controller watches profiles (and the one Config,
-- whose changes trigger every profile) and, at each reconciliation, makes or checks the namespace,
-- merges the Config's default labels into it, and keeps a finalizer on the profile. Beside that it
-- has methods that create or update Istio policies, quotas, service accounts and role bindings,
-- generators of the objects that a namespace gets, and two plugins that pair the namespace's editor
-- account with an AWS role or a GCP account. `Reconcile` has its calls of those commented out, so
-- they are modelled as the operations that they are, and `reconcile` calls none of them.
--
-- Files, with paths from the repository's root:
--   Prelude, Prelude/*         shared notation; Go's maps as association lists
--   Api/*                      apis/kubeflow.org/v2alpha1/profile_types.go,
--                              apis/platform/v1alpha1/config_types.go, and the fields of the
--                              Kubernetes and Istio types that the controller fills in
--   Cluster, Cluster/*         the API client as a parameter, errors and panics as outcomes, the
--                              events that a run leaves, controllers/kubeflow.org/monitoring.go
--   Slices, Labels, Labels/*   containsString, removeString, setNamespaceLabels,
--                              readDefaultLabelsFromFile
--   Reconcile, Reconcile/*     Reconcile, appendErrorConditionAndReturn, the mapper of
--                              SetupWithManager
--   System, System/*           the API server and its other writers around Reconcile: the abstract
--                              steps that a run may take, histories of many runs, and several
--                              copies of the controller
--   Managed, Managed/*         updateIstioRequestAuthentication, updateIstioAuthorizationPolicy,
--                              getAuthorizationPolicy, updateResourceQuota, updateServiceAccount,
--                              updateRoleBinding, with reflect.DeepEqual written out
--   Plugins/Arn, Json, AssumeRole, Iam    controllers/kubeflow.org/plugin_iam.go
--   Plugins/WorkloadIdentity, and its children   controllers/kubeflow.org/plugin_workload_identity.go
--   Plugins/Specs              GetPluginSpec, PatchDefaultPluginSpec
--   Resources/*                the generate* methods
--   Extra, Extra/*             controllers/kubeflow.org/resource_reconciler.go
--   Copies, Copies/*           zz_generated.deepcopy.go of apis/kubeflow.org/v2alpha1 and
--                              apis/platform/v1alpha1, over a memory of cells
--   Copies/Older, and children the structs of apis/kubeflow.org/v1 and v1beta1, and their
--                              zz_generated.deepcopy.go
--   Startup, Startup/*         main.go, the counters and registrations of monitoring.go, the
--                              controller that SetupWithManager builds, groupversion_info.go and
--                              the types that each package under apis registers
--   Metrics, Metrics/*         the increments and the heartbeat goroutine of monitoring.go
--   Tests/*                    small servers and memories, and the theorems applied to them
-- Where no other file is named, the code is controllers/kubeflow.org/profile_controller.go.
--
-- State. A method is a function on `State World`: a world of any type, which only the client's
-- functions change, and the list of events (writes and counters), the latest first. Each answer of
-- the client may be anything, so that other writers between two calls are allowed for. Stages
-- named `after_*` are the code after a call, by the call's answer; an early return ends a stage.
-- Values are immutable there; the deep copies, where sharing is the point, work on a memory that
-- grows by cells, and `IsDeep` is what makes a copy independent of what it copies.
--
-- Specification. `System.Step` is the abstract view of the API server: which changes of it one
-- profile entitles to, between the steps of other writers. Reconcile/Refines and Refines/Runs are
-- about the stages of `reconcile` and those steps, System/Ownership and System/Replicas about
-- histories made of runs and steps.
--
-- Parameters. `Env` stands for controller-runtime's client, SetControllerReference and
-- backoff.Retry; `Aws` and `Gcp` for the cloud SDKs; `JsonLib` for encoding/json and gjson;
-- `YamlLib` and `Files` for github.com/goccy/go-yaml and the file system; `Manifests` for
-- text/template, the YAML decoders and the client's `Patch`; `Prometheus` for the vectors of
-- counters. The libraries' deep copies are `Copiers`; what the libraries do at the start of the
-- program is one function on `Call`. The hypotheses on them are the records IsReferenceSetter,
-- IsRetry, IsPrometheus (`With` panics on other labels only), IsJsonLib, IsApiServer (updates of a
-- version that is stored no more are refused; cached reads may be old; what is stored has the
-- annotations and labels that were sent, but for the label kubernetes.io/metadata.name, which is
-- the server's; a version of an object is never given twice), IsDecoder (a document takes some of
-- the input) and AreDeep, each of them shown to hold of concrete functions in Tests.
--
-- Bounds. The retry has at most five retries after the first try, as in the source. The loop of
-- splitYaml takes one round more than its text has bytes, which is enough, since each document
-- takes a byte at least; no other definition takes fuel. Strings are texts whose length counts
-- bytes, as Go's `len` does; a tag is cut at 30. Counters are naturals, and prometheus's are
-- floating-point numbers, which count exactly up to 2 ^ 53.
--
-- Left out: logging; the parsing of flags; the ten seconds between heartbeats, of which only the
-- order with other events remains; and the libraries under vendor.
pub mod Prelude
pub mod Api
pub mod Cluster
pub mod Slices
pub mod System
pub mod Labels
pub mod Reconcile
pub mod Plugins
pub mod Managed
pub mod Metrics
pub mod Resources
pub mod Extra
pub mod Copies
pub mod Startup
pub mod Tests
