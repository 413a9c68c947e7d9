-- ===== src/Reconcile/Writes.antt =====
-- What `reconcile` writes, whatever the API server answers.
use kubeflow_profile_control.Prelude.{
  String, ◌≡◌, refl, true, Option, none, some, [], ◌∷◌, ◌∙◌, arith, eq_iff, All,
}
use kubeflow_profile_control.Api.Meta.{NamespacedName, Namespace, ObjectMeta}
use kubeflow_profile_control.Api.Profile.{Profile}
use kubeflow_profile_control.Api.Config.{Config}
use kubeflow_profile_control.Cluster.{
  Env, Act, State, Outcome, ok, err, panic, Error, Object, Event, create_object, update_object,
  request, request_failure, Reply, found, failed,
}
use kubeflow_profile_control.Cluster.Keeps.{IsReferenceSetter, IsRetry, Emits, Keeps, Keeps-bind}
use kubeflow_profile_control.Reconcile.{
  owner_annotation, Flow, go_on, return, annotation, is_owner, wanted_namespace,
  append_error_condition_and_return, namespace_by_name, after_retry, await_namespace, after_create,
  refuse_takeover, existing_namespace, create_namespace, after_get_namespace, after_set_reference,
  ensure_namespace, reconcile_finalizer, after_namespace, after_get_config, after_get_profile,
  reconcile,
}

-- The writes that a profile entitles its reconciliation to.
abbrev pub IsPermitted : Profile → Event → Type 0
IsPermitted p (create_object (Object.namespace ns)) =
    (ns.meta.name ≡ p.meta.name) × (annotation owner_annotation ns ≡ some p.spec.owner.name)
IsPermitted p (update_object (Object.namespace ns)) =
    annotation owner_annotation ns ≡ some p.spec.owner.name
IsPermitted p (update_object (Object.profile p')) =
    (p'.meta.name ≡ p.meta.name) × (p'.spec ≡ p.spec)
IsPermitted p (request _) = Unit
IsPermitted p (request_failure _ _) = Unit
IsPermitted p _ = ⊥

pub eq_of_is_owner : (o : Option String) (name : String) → is_owner o name ≡ true → o ≡ some name
unfolding is_owner
eq_of_is_owner none name h = cc
eq_of_is_owner (some owner) name h = ground (arith, eq_iff owner name)

module _ {World : Type 0} (env : Env World) (p : Profile) where
  abbrev Permits : {A : Type 0} → Act World A → Type 0
  Permits = Keeps (Emits (IsPermitted p))

  Permits-append_error_condition :
      (text : String) → Permits (append_error_condition_and_return env p text)
  unfolding append_error_condition_and_return
  Permits-append_error_condition text s h = ground arith

  Permits-refuse_takeover : Permits (refuse_takeover env p)
  unfolding refuse_takeover
  Permits-refuse_takeover s h = ground arith

  Permits-existing_namespace :
      (config : Config) (ns : Namespace) → Permits (existing_namespace env p config ns)
  unfolding existing_namespace
  Permits-existing_namespace config ns s h =
      ground (arith, eq_of_is_owner (annotation owner_annotation ns) p.spec.owner.name)

  Permits-reconcile_finalizer : Permits (reconcile_finalizer env p)
  unfolding reconcile_finalizer
  Permits-reconcile_finalizer s h = ground arith

  Permits-after_namespace : (flow : Flow) → Permits (after_namespace env p flow)
  unfolding after_namespace
  Permits-after_namespace go_on s h = ground (arith, Permits-reconcile_finalizer s)
  Permits-after_namespace return s h = h

  Permits-namespace_by_name : (name : String) → Permits (namespace_by_name env name)
  unfolding namespace_by_name
  Permits-namespace_by_name name s h = ground arith

  Permits-after_retry : (r : Outcome Namespace) → Permits (after_retry env p r)
  unfolding after_retry
  Permits-after_retry (ok ns) s h = h
  Permits-after_retry (err e) s h = ground arith
  Permits-after_retry panic s h = h

  module _ (retry : IsRetry env) where
    Permits-await_namespace : (name : String) → Permits (await_namespace env p name)
    unfolding await_namespace
    Permits-await_namespace name s h =
        Permits-after_retry (env.retry 5 (namespace_by_name env name) s).0
          (env.retry 5 (namespace_by_name env name) s).1
          (retry.keeps (Emits (IsPermitted p)) 5 (namespace_by_name env name)
            (Permits-namespace_by_name name) s h)

    Permits-after_create : (ns : Namespace) (e : Option Error) → Permits (after_create env p ns e)
    unfolding after_create
    Permits-after_create ns none s h = Permits-await_namespace ns.meta.name s h
    Permits-after_create ns (some e) s h = ground arith

    module _ (config : Config) (ns : Namespace) (named : ns.meta.name ≡ p.meta.name)
        (owned : annotation owner_annotation ns ≡ some p.spec.owner.name) where
      Permits-create_namespace : Permits (create_namespace env p ns)
      unfolding create_namespace
      Permits-create_namespace s h =
          Permits-after_create ns (env.namespaces.create ns s.world).0
            (record {
              world = (env.namespaces.create ns s.world).1;
              events = create_object (Object.namespace ns) ∷ s.events;
            })
            ((named, owned), h)

      Permits-after_get_namespace :
          (r : Reply Namespace) → Permits (after_get_namespace env p config ns r)
      unfolding after_get_namespace
      Permits-after_get_namespace (found old) s h = Permits-existing_namespace config old s h
      Permits-after_get_namespace (failed e) s h = ground (arith, Permits-create_namespace s)

pub wanted_namespace-name :
    (p : Profile) (config : Config) → (wanted_namespace p config).meta.name ≡ p.meta.name
unfolding wanted_namespace
wanted_namespace-name p config = refl

pub wanted_namespace-owner :
    (p : Profile) (config : Config) (m : ObjectMeta)
    → m.annotations ≡ (wanted_namespace p config).meta.annotations
    → annotation owner_annotation (record (wanted_namespace p config) { meta = m })
      ≡ some p.spec.owner.name
unfolding wanted_namespace annotation
wanted_namespace-owner p config m same = rw same

module _ {World : Type 0} (env : Env World) (setter : IsReferenceSetter env)
    (retry : IsRetry env) where
  Permits-after_set_reference :
      (p : Profile) (config : Config) (r : Reply ObjectMeta)
      → env.set_controller_reference p (wanted_namespace p config).meta ≡ r
      → Permits env p (after_set_reference env p config (wanted_namespace p config) r)
  unfolding after_set_reference
  Permits-after_set_reference p config (failed e) set s h = ground arith
  Permits-after_set_reference p config (found m) set s h =
      let key : NamespacedName = record { namespace = ""; name = m.name } in
      Permits-after_get_namespace env p retry config
        (record (wanted_namespace p config) { meta = m })
        (setter.keeps_name p _ m set ∙ wanted_namespace-name p config)
        (wanted_namespace-owner p config m (setter.keeps_annotations p _ m set))
        (env.namespaces.get key s.world).0 (record s { world = (env.namespaces.get key s.world).1 })
        h

  Permits-ensure_namespace :
      (p : Profile) (config : Config) → Permits env p (ensure_namespace env p config)
  unfolding ensure_namespace
  Permits-ensure_namespace p config s h =
      Permits-after_set_reference p config
        (env.set_controller_reference p (wanted_namespace p config).meta) refl s h

  Permits-after_get_config :
      (p : Profile) (r : Reply Config) → Permits env p (after_get_config env p r)
  unfolding after_get_config
  Permits-after_get_config p (failed e) s h = h
  Permits-after_get_config p (found config) s h =
      Keeps-bind (Emits (IsPermitted p)) (ensure_namespace env p config) (after_namespace env p)
        (Permits-ensure_namespace p config) (Permits-after_namespace env p) s h

  -- If the profile can be read, then whatever the API server answers after that, the events of
  -- one `reconcile`, started with no event, are counters and, of writes, only these: a creation
  -- of a namespace with the profile's name and its owner in the `owner` annotation; updates of a
  -- namespace whose `owner` annotation is the profile's owner; and updates of the profile that
  -- keep its name and its spec.
  pub reconcile_writes :
      (key : NamespacedName) (p : Profile) (s : State World)
      → (env.profiles.get key s.world).0 ≡ found p
      → s.events ≡ []
      → All (IsPermitted p) (reconcile env key s).1.events
  unfolding reconcile after_get_profile
  reconcile_writes key p s h e =
      rw h (Permits-after_get_config p _ (record s { world = _ }) (rw e tt))
