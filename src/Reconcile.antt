-- ===== src/Reconcile.antt =====
-- `Reconcile`, `appendErrorConditionAndReturn` and the mapper of `SetupWithManager` in
-- controllers/kubeflow.org/profile_controller.go. Each early return of `Reconcile` is a stage here;
-- the calls that the source has commented out are left out, as they are there.
pub mod Writes
pub mod Settled
pub mod Ends
pub mod Counts
pub mod Relabels
pub mod Converges
pub mod Takeover
pub mod Finalizer
pub mod Reads
pub mod Creates
pub mod Refines
use kubeflow_profile_control.Prelude.{
  String, Bool, false, Option, none, some, List, [], ◌∷◌, ◌++◌, map, ◌==◌, ◌⧺◌, if◌then◌else◌,
}
use kubeflow_profile_control.Prelude.Dict.{lookup, deep_equal}
use kubeflow_profile_control.Api.Meta.{NamespacedName, ObjectMeta, Namespace, zero_meta}
use kubeflow_profile_control.Api.Profile.{Profile, profile_failed}
use kubeflow_profile_control.Api.Config.{Config}
use kubeflow_profile_control.Slices.{contains_string, remove_string}
use kubeflow_profile_control.Labels.{made, set_namespace_labels}
use kubeflow_profile_control.Cluster.{
  Env, Act, State, Outcome, Error, Object, Reply, found, failed, pure, fail, crash, get, create,
  update, return_error, ◌>>=◌, ◌>>◌, severity_major, inc_request_counter, inc_request_error_counter,
}

abbrev pub profile_finalizer : String
profile_finalizer = "profile-finalizer"

abbrev pub istio_injection_label : String
istio_injection_label = "istio-injection"

abbrev pub owner_annotation : String
owner_annotation = "owner"

unfoldable pub request_of : Profile → NamespacedName
request_of p = record { namespace = p.meta.namespace; name = p.meta.name }

-- Whether a stage lets `Reconcile` go on, or has it return with no error.
pub data Flow : Type 0 where
  go_on return : Flow

-- A map that is nil ranges over nothing and holds nothing.
unfoldable pub annotation : String → Namespace → Option String
unfolding lookup
annotation k ns = lookup k (made ns.meta.annotations)

-- `ok && owner == instance.Spec.Owner.Name`
unfoldable pub is_owner : Option String → String → Bool
is_owner none name = false
is_owner (some owner) name = owner == name

-- The namespace that a profile wants.
unfoldable pub wanted_namespace : Profile → Config → Namespace
unfolding set_namespace_labels
wanted_namespace instance config =
    set_namespace_labels
      (record {
        meta = record zero_meta {
          name = instance.meta.name;
          labels = some ((istio_injection_label, "enabled") ∷ []);
          annotations = some ((owner_annotation, instance.spec.owner.name) ∷ []);
        };
        phase = "";
      })
      (made config.spec.namespace.default_labels)

unfoldable pub with_condition : Profile → String → Profile
with_condition instance text = record instance {
  status = record {
    conditions =
        instance.status.conditions
        ++ record { type = profile_failed; status = ""; message = text } ∷ [];
  };
}

abbrev pub creation_timeout : String
creation_timeout = "Owning namespace failed to create within 15 seconds"

abbrev pub not_owned : String → String
not_owned owner = "namespace already exist, but not owned by profile creator " ⧺ owner

-- The finalizer's stage up to its `Update`: the profile to write, if any.
unfoldable pub with_finalizer : Profile → Option Profile
unfolding contains_string
with_finalizer instance = elim instance.meta.deletion_timestamp [
  | none ↦
      if contains_string instance.meta.finalizers profile_finalizer
      then none
      else some (record instance {
        meta = record instance.meta {
          finalizers = instance.meta.finalizers ++ profile_finalizer ∷ [];
        };
      })
  | some _ ↦
      if contains_string instance.meta.finalizers profile_finalizer
      then some (record instance {
        meta = record instance.meta {
          finalizers = remove_string instance.meta.finalizers profile_finalizer;
        };
      })
      else none
]

module _ {World : Type 0} (env : Env World) where
  pub append_error_condition_and_return : Profile → String → Act World (Unit {0})
  unfolding with_condition
  append_error_condition_and_return instance text = do
    e ← update env.profiles Object.profile (with_condition instance text)
    return_error e

  -- `IncRequestErrorCounter(kind, SEVERITY_MAJOR)`, then `return reconcile.Result{}, err`
  fail_counted : {A : Type 0} → String → Error → Act World A
  fail_counted kind e = do inc_request_error_counter kind severity_major; fail e

  -- `r.Get` of the namespace inside `backoff.Retry`, as an operation that fails or succeeds.
  pub namespace_by_name : String → Act World Namespace
  namespace_by_name name = do
    r ← get env.namespaces (record { namespace = ""; name = name })
    elim r [ found ns ↦ pure ns | failed e ↦ fail e ]

  -- What `Reconcile` does with the end of `backoff.Retry`.
  after_retry : Profile → Outcome Namespace → Act World Flow
  unfolding append_error_condition_and_return
  after_retry instance (Outcome.ok ns) = pure go_on
  after_retry instance (Outcome.err e) = do
    inc_request_error_counter "error namespace create completion" severity_major
    append_error_condition_and_return instance creation_timeout
    pure return
  after_retry instance Outcome.panic = crash

  -- "wait 15 seconds for new namespace creation": the first try and five more.
  await_namespace : Profile → String → Act World Flow
  unfolding namespace_by_name after_retry
  await_namespace instance name s =
      let (r, s') = env.retry 5 (namespace_by_name name) s in after_retry instance r s'

  after_create : Profile → Namespace → Option Error → Act World Flow
  unfolding fail_counted await_namespace
  after_create instance ns (some e) = fail_counted "error creating namespace" e
  after_create instance ns none = await_namespace instance ns.meta.name

  after_update_namespace : Option Error → Act World Flow
  unfolding fail_counted
  after_update_namespace none = pure go_on
  after_update_namespace (some e) = fail_counted "error updating namespace label" e

  pub write_labels : Namespace → Act World Flow
  unfolding after_update_namespace
  write_labels ns = do e ← update env.namespaces Object.namespace ns; after_update_namespace e

  refuse_takeover : Profile → Act World Flow
  unfolding append_error_condition_and_return
  refuse_takeover instance = do
    inc_request_counter "reject profile taking over existing namespace"
    append_error_condition_and_return instance (not_owned instance.spec.owner.name)
    pure return

  -- The namespace is there: check its owner, then its labels.
  pub existing_namespace : Profile → Config → Namespace → Act World Flow
  unfolding write_labels refuse_takeover is_owner annotation set_namespace_labels deep_equal
  existing_namespace instance config ns =
      let labelled = set_namespace_labels ns (made config.spec.namespace.default_labels) in
      if is_owner (annotation owner_annotation ns) instance.spec.owner.name
      then (if deep_equal (made ns.meta.labels) (made labelled.meta.labels)
          then pure go_on
          else write_labels labelled)
      else refuse_takeover instance

  create_namespace : Profile → Namespace → Act World Flow
  unfolding after_create
  create_namespace instance ns = do
    e ← create env.namespaces Object.namespace ns
    after_create instance ns e

  pub after_get_namespace : Profile → Config → Namespace → Reply Namespace → Act World Flow
  unfolding create_namespace existing_namespace fail_counted
  after_get_namespace instance config ns (found old) = existing_namespace instance config old
  after_get_namespace instance config ns (failed e) =
      if env.is_not_found e
      then create_namespace instance ns
      else fail_counted "error reading namespace" e

  after_set_reference : Profile → Config → Namespace → Reply ObjectMeta → Act World Flow
  unfolding after_get_namespace fail_counted
  after_set_reference instance config ns (failed e) =
      fail_counted "error setting ControllerReference" e
  after_set_reference instance config ns (found meta) = do
    r ← get env.namespaces (record { namespace = ""; name = meta.name })
    after_get_namespace instance config (record ns { meta = meta }) r

  -- "Update namespace" up to the check of the owner and the labels.
  ensure_namespace : Profile → Config → Act World Flow
  unfolding wanted_namespace after_set_reference
  ensure_namespace instance config =
      let ns = wanted_namespace instance config in
      after_set_reference instance config ns (env.set_controller_reference instance ns.meta)

  after_update : Profile → Option Error → Act World (Unit {0})
  unfolding fail_counted
  after_update instance none = pure tt
  after_update instance (some e) = elim instance.meta.deletion_timestamp [
    | none ↦ fail_counted "error updating finalizer" e
    | some _ ↦ fail_counted "error removing finalizer" e
  ]

  -- "examine DeletionTimestamp to determine if object is under deletion"
  reconcile_finalizer : Profile → Act World (Unit {0})
  unfolding with_finalizer after_update
  reconcile_finalizer instance = elim (with_finalizer instance) [
    | none ↦ pure tt
    | some instance' ↦ do e ← update env.profiles Object.profile instance'; after_update instance e
  ]

  pub after_namespace : Profile → Flow → Act World (Unit {0})
  unfolding reconcile_finalizer
  after_namespace instance return = pure tt
  after_namespace instance go_on = do reconcile_finalizer instance; inc_request_counter "reconcile"

  after_get_config : Profile → Reply Config → Act World (Unit {0})
  unfolding ensure_namespace after_namespace
  after_get_config instance (failed e) = fail e
  after_get_config instance (found config) = do
    flow ← ensure_namespace instance config
    after_namespace instance flow

  after_get_profile : Reply Profile → Act World (Unit {0})
  unfolding after_get_config
  after_get_profile (failed e) =
      if env.is_not_found e
      then inc_request_counter "profile deletion"
      else fail_counted "error reading the profile object" e
  after_get_profile (found instance) = do
    r ← get env.configs (record { namespace = ""; name = "config" })
    after_get_config instance r

  unfoldable pub reconcile : NamespacedName → Act World (Unit {0})
  unfolding after_get_profile
  reconcile request = do r ← get env.profiles request; after_get_profile r

  -- `profileMapperFn`: the requests that a change of the config triggers, one for each profile.
  unfoldable pub profile_mapper : State World → List NamespacedName × State World
  profile_mapper s =
      let (r, w) = env.list_profiles s.world in
      (
        elim r [ failed _ ↦ [] | found profiles ↦ map request_of profiles.items ],
        record s { world = w },
      )
