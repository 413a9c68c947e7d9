-- ===== src/Reconcile/Ends.antt =====
-- How `reconcile` ends.
use kubeflow_profile_control.Prelude.{String, ◌≡◌, ◌≢◌, refl, Option, none, some, List, ◌∷◌, arith}
use kubeflow_profile_control.Api.Meta.{NamespacedName, ObjectMeta, Namespace}
use kubeflow_profile_control.Api.Profile.{Profile}
use kubeflow_profile_control.Api.Config.{Config}
use kubeflow_profile_control.Cluster.{
  Env, Act, State, Outcome, ok, err, panic, Error, Object, Event, update_object, request_failure,
  Reply, found, failed, continue, ◌>>=◌, severity_major,
}
use kubeflow_profile_control.Cluster.Keeps.{IsRetry}
use kubeflow_profile_control.Reconcile.{
  Flow, go_on, return, wanted_namespace, append_error_condition_and_return, namespace_by_name,
  after_retry, await_namespace, after_create, existing_namespace, create_namespace,
  after_get_namespace, after_set_reference, ensure_namespace, reconcile_finalizer, after_namespace,
  after_get_config, after_get_profile, reconcile,
}
use kubeflow_profile_control.Reconcile.Reads.{cluster_key}

-- The run does not panic, and if it fails, its last event is a failure counted as major or the
-- write of the profile that failed.
abbrev pub IsAccounted : {A : Type 0} → Outcome A → List Event → Type 0
IsAccounted (ok _) events = Unit
IsAccounted panic events = ⊥
IsAccounted (err e) (request_failure kind severity ∷ _) = severity ≡ severity_major
IsAccounted (err e) (update_object (Object.profile p) ∷ _) = Unit
IsAccounted (err e) _ = ⊥

module _ {World : Type 0} where
  abbrev Accounts : {A : Type 0} → Act World A → Type 0
  Accounts m = (s : State World) → IsAccounted (m s).0 (m s).1.events

  Accounts-bind :
      {A B : Type 0} (m : Act World A) (f : A → Act World B)
      → Accounts m
      → ((a : A) → Accounts (f a))
      → Accounts (m >>= f)
  Accounts-bind {A} m f km kf s = ends (m s).0 (m s).1 (km s)
    where
      ends :
          (r : Outcome A) (t : State World)
          → IsAccounted r t.events
          → IsAccounted (continue r f t).0 (continue r f t).1.events
      ends (ok a) t k = kf a t
      ends (err e) t k = k
      ends panic t k = k

module _ {World : Type 0} (env : Env World) (p : Profile) where
  Accounts-existing_namespace :
      (config : Config) (ns : Namespace) → Accounts (existing_namespace env p config ns)
  unfolding existing_namespace
  Accounts-existing_namespace config ns s = ground arith

  Accounts-reconcile_finalizer : Accounts (reconcile_finalizer env p)
  unfolding reconcile_finalizer
  Accounts-reconcile_finalizer s = ground arith

  Accounts-after_namespace : (flow : Flow) → Accounts (after_namespace env p flow)
  unfolding after_namespace
  Accounts-after_namespace go_on s = ground (arith, Accounts-reconcile_finalizer s)
  Accounts-after_namespace return s = tt

  Accounts-after_retry : (r : Outcome Namespace) → r ≢ panic → Accounts (after_retry env p r)
  unfolding after_retry append_error_condition_and_return
  Accounts-after_retry (ok ns) h s = tt
  Accounts-after_retry (err e) h s = ground arith
  Accounts-after_retry panic h s = absurd (h refl)

  pub namespace_by_name-ne-panic :
      (name : String) (s : State World) → (namespace_by_name env name s).0 ≢ panic
  unfolding namespace_by_name
  namespace_by_name-ne-panic name s = ground arith

  module _ (retry : IsRetry env) where
    Accounts-await_namespace : (name : String) → Accounts (await_namespace env p name)
    unfolding await_namespace
    Accounts-await_namespace name s =
        Accounts-after_retry (env.retry 5 (namespace_by_name env name) s).0
          (retry.ends_as (λ r. r ≢ panic) 5 (namespace_by_name env name)
            (namespace_by_name-ne-panic name) s)
          (env.retry 5 (namespace_by_name env name) s).1

    Accounts-after_create : (ns : Namespace) (e : Option Error) → Accounts (after_create env p ns e)
    unfolding after_create
    Accounts-after_create ns none s = Accounts-await_namespace ns.meta.name s
    Accounts-after_create ns (some e) s = ground arith

    Accounts-create_namespace : (ns : Namespace) → Accounts (create_namespace env p ns)
    unfolding create_namespace
    Accounts-create_namespace ns s = Accounts-after_create ns _ (record { world = _; events = _ })

    Accounts-after_get_namespace :
        (config : Config) (ns : Namespace) (r : Reply Namespace)
        → Accounts (after_get_namespace env p config ns r)
    unfolding after_get_namespace
    Accounts-after_get_namespace config ns (found old) s = Accounts-existing_namespace config old s
    Accounts-after_get_namespace config ns (failed e) s =
        ground (arith, Accounts-create_namespace ns s)

    Accounts-after_set_reference :
        (config : Config) (ns : Namespace) (r : Reply ObjectMeta)
        → Accounts (after_set_reference env p config ns r)
    unfolding after_set_reference
    Accounts-after_set_reference config ns (failed e) s = ground arith
    Accounts-after_set_reference config ns (found m) s =
        Accounts-after_get_namespace config (record ns { meta = m })
          (env.namespaces.get (cluster_key m.name) s.world).0
          (record s { world = (env.namespaces.get (cluster_key m.name) s.world).1 })

    Accounts-after_get_config : (config : Config) → Accounts (after_get_config env p (found config))
    unfolding after_get_config ensure_namespace
    Accounts-after_get_config config =
        Accounts-bind (ensure_namespace env p config) (after_namespace env p)
          (Accounts-after_set_reference config (wanted_namespace p config)
            (env.set_controller_reference p (wanted_namespace p config).meta))
          Accounts-after_namespace

module _ {World : Type 0} (env : Env World) where
  -- If the config can be read, `reconcile` does not panic, and where it returns an error, its last
  -- event is a failure counted with the severity `major` or a write of the profile.
  pub reconcile-IsAccounted :
      IsRetry env
      → (key : NamespacedName) (s : State World) (config : Config)
      → (env.configs.get (cluster_key "config") (env.profiles.get key s.world).1).0 ≡ found config
      → IsAccounted (reconcile env key s).0 (reconcile env key s).1.events
  unfolding reconcile
  reconcile-IsAccounted retry key s config h =
      ends (env.profiles.get key s.world).0 (record s { world = (env.profiles.get key s.world).1 })
        h
    where
      ends :
          (r : Reply Profile) (t : State World)
          → (env.configs.get (cluster_key "config") t.world).0 ≡ found config
          → IsAccounted (after_get_profile env r t).0 (after_get_profile env r t).1.events
      ends (failed e) t h = unfold after_get_profile in ground arith
      ends (found p) t h =
          unfold after_get_profile in
          rw h (Accounts-after_get_config env p retry config (record t { world = _ }))
