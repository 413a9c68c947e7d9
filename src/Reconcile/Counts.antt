-- ===== src/Reconcile/Counts.antt =====
-- How often one run of `reconcile` increments a counter, and how often it writes.
use mathlib.Core.Path.{subst}
use kubeflow_profile_control.Prelude.{
  ℕ, suc, ◌+◌, ◌≤◌, String, ◌≡◌, ◌≢◌, refl, ap, ◌∙◌, List, [], ◌∷◌, arith,
}
use kubeflow_profile_control.Api.Meta.{NamespacedName, ObjectMeta, Namespace}
use kubeflow_profile_control.Api.Profile.{Profile}
use kubeflow_profile_control.Api.Config.{Config}
use kubeflow_profile_control.Cluster.{
  Env, Act, State, Outcome, ok, err, panic, Object, Event, create_object, continue, request,
  request_failure, Reply, found, failed,
}
use kubeflow_profile_control.Cluster.Keeps.{IsRetry}
use kubeflow_profile_control.Reconcile.{
  Flow, go_on, return, wanted_namespace, append_error_condition_and_return, namespace_by_name,
  after_retry, await_namespace, after_create, existing_namespace, create_namespace,
  after_get_namespace, after_set_reference, ensure_namespace, reconcile_finalizer, after_namespace,
  after_get_config, after_get_profile, reconcile,
}
use kubeflow_profile_control.Reconcile.Ends.{namespace_by_name-ne-panic}
use kubeflow_profile_control.Reconcile.Reads.{cluster_key}

-- The increments among the events.
abbrev pub counted : List Event → ℕ
counted [] = 0
counted (request _ ∷ events) = suc (counted events)
counted (request_failure _ _ ∷ events) = suc (counted events)
counted (_ ∷ events) = counted events

-- The increments that a run makes, by what it reads of the profile and the config.
abbrev pub increments : Reply Profile → Reply Config → ℕ
increments (found _) (failed _) = 0
increments _ _ = 1

-- The writes among the events.
abbrev pub writes : List Event → ℕ
writes [] = 0
writes (request _ ∷ events) = writes events
writes (request_failure _ _ ∷ events) = writes events
writes (_ ∷ events) = suc (writes events)

-- A stage that lets `reconcile` go on has counted nothing and written at most `n` times, and one
-- that ends it has counted once and written at most once more.
abbrev IsCounted : ℕ → List Event → Outcome Flow → List Event → Type 0
IsCounted n before (ok go_on) after =
    (counted after ≡ counted before) × (writes after ≤ n + writes before)
IsCounted n before panic after = ⊥
IsCounted n before _ after =
    (counted after ≡ suc (counted before)) × (writes after ≤ suc n + writes before)

module _ {World : Type 0} where
  abbrev CountsOnce : {A : Type 0} → ℕ → Act World A → Type 0
  CountsOnce n m =
      (s : State World)
      → (counted (m s).1.events ≡ suc (counted s.events))
        × (writes (m s).1.events ≤ n + writes s.events)

  abbrev CountsAtEnd : ℕ → Act World Flow → Type 0
  CountsAtEnd n m = (s : State World) → IsCounted n s.events (m s).0 (m s).1.events

module _ {World : Type 0} (env : Env World) (p : Profile) where
  CountsAtEnd-existing_namespace :
      (config : Config) (ns : Namespace) → CountsAtEnd 1 (existing_namespace env p config ns)
  unfolding existing_namespace
  CountsAtEnd-existing_namespace config ns s = ground arith

  CountsOnce-after_namespace : CountsOnce 1 (after_namespace env p go_on)
  unfolding after_namespace reconcile_finalizer
  CountsOnce-after_namespace s = ground arith

  CountsAtEnd-after_retry :
      (r : Outcome Namespace) → r ≢ panic → CountsAtEnd 0 (after_retry env p r)
  unfolding after_retry append_error_condition_and_return
  CountsAtEnd-after_retry (ok ns) h s = (refl, omega arith)
  CountsAtEnd-after_retry (err e) h s = ground arith
  CountsAtEnd-after_retry panic h s = absurd (h refl)

  namespace_by_name-events :
      (name : String) (s : State World) → (namespace_by_name env name s).1.events ≡ s.events
  unfolding namespace_by_name
  namespace_by_name-events name s = ground arith

  module _ (retry : IsRetry env) where
    CountsAtEnd-await_namespace : (name : String) → CountsAtEnd 0 (await_namespace env p name)
    unfolding await_namespace
    CountsAtEnd-await_namespace name s =
        let (r, t) = env.retry 5 (namespace_by_name env name) s in
        let same : t.events ≡ s.events =
          retry.keeps (λ u. u.events ≡ s.events) 5 (namespace_by_name env name)
            (λ u h. namespace_by_name-events name u ∙ h) s refl in
        let no_panic : r ≢ panic =
          retry.ends_as (λ r. r ≢ panic) 5 (namespace_by_name env name)
            (namespace_by_name-ne-panic env p name) s in
        subst
          (λ before. IsCounted 0 before (after_retry env p r t).0 (after_retry env p r t).1.events)
          same (CountsAtEnd-after_retry r no_panic t)

    CountsAtEnd-create_namespace : (ns : Namespace) → CountsAtEnd 1 (create_namespace env p ns)
    unfolding create_namespace after_create
    CountsAtEnd-create_namespace ns s =
        let awaited = CountsAtEnd-await_namespace ns.meta.name (record {
          world = (env.namespaces.create ns s.world).1;
          events = create_object (Object.namespace ns) ∷ s.events;
        }) in
        ground arith

    CountsAtEnd-after_get_namespace :
        (config : Config) (ns : Namespace) (r : Reply Namespace)
        → CountsAtEnd 1 (after_get_namespace env p config ns r)
    unfolding after_get_namespace
    CountsAtEnd-after_get_namespace config ns (found old) s =
        CountsAtEnd-existing_namespace config old s
    CountsAtEnd-after_get_namespace config ns (failed e) s =
        ground (arith, CountsAtEnd-create_namespace ns s)

    CountsAtEnd-after_set_reference :
        (config : Config) (ns : Namespace) (r : Reply ObjectMeta)
        → CountsAtEnd 1 (after_set_reference env p config ns r)
    unfolding after_set_reference
    CountsAtEnd-after_set_reference config ns (failed e) s = (refl, omega arith)
    CountsAtEnd-after_set_reference config ns (found m) s =
        CountsAtEnd-after_get_namespace config (record ns { meta = m })
          (env.namespaces.get (cluster_key m.name) s.world).0
          (record s { world = (env.namespaces.get (cluster_key m.name) s.world).1 })

    CountsOnce-after_get_config :
        (config : Config) → CountsOnce 2 (after_get_config env p (found config))
    unfolding after_get_config ensure_namespace
    CountsOnce-after_get_config config s =
        let ns = wanted_namespace p config in
        ends s.events _ _
          (CountsAtEnd-after_set_reference config ns (env.set_controller_reference p ns.meta) s)
      where
        ends :
            (before : List Event) (r : Outcome Flow) (t : State World)
            → IsCounted 1 before r t.events
            → let after = (continue r (after_namespace env p) t).1.events in
              (counted after ≡ suc (counted before)) × (writes after ≤ 2 + writes before)
        ends before (ok go_on) t (same, few) =
            let (once, one) = CountsOnce-after_namespace t in (once ∙ ap suc same, omega arith)
        ends before (ok return) t h = unfold after_namespace in h
        ends before (err e) t h = h
        ends before panic t h = absurd h

module _ {World : Type 0} (env : Env World) where
  -- If the retry does nothing but call its operation, one run of `reconcile` increments one counter,
  -- once, and writes at most twice, whatever the API server answers and however the run ends. The
  -- exception is a run that reads the profile and cannot read the config, which increments no
  -- counter, although it ends with an error.
  pub reconcile_counts :
      IsRetry env
      → (key : NamespacedName) (s : State World)
      → let (p, w) = env.profiles.get key s.world in
        let (config, _) = env.configs.get (cluster_key "config") w in
        let after = (reconcile env key s).1.events in
        (counted after ≡ increments p config + counted s.events)
        × (writes after ≤ 2 + writes s.events)
  unfolding reconcile
  reconcile_counts retry key s =
      ends (env.profiles.get key s.world).0 (record s { world = (env.profiles.get key s.world).1 })
    where
      with_config :
          (p : Profile) (r : Reply Config) (t : State World)
          → let after = (after_get_config env p r t).1.events in
            (counted after ≡ increments (found p) r + counted t.events)
            × (writes after ≤ 2 + writes t.events)
      with_config p (failed e) t = unfold after_get_config in (omega arith, omega arith)
      with_config p (found config) t =
          let (once, few) = CountsOnce-after_get_config env p retry config t in
          (once ∙ omega arith, few)

      ends :
          (r : Reply Profile) (t : State World)
          → let after = (after_get_profile env r t).1.events in
            (counted after
              ≡ increments r (env.configs.get (cluster_key "config") t.world).0 + counted t.events)
            × (writes after ≤ 2 + writes t.events)
      ends (failed e) t = unfold after_get_profile in ground arith
      ends (found p) t = unfold after_get_profile in with_config p _ (record t { world = _ })
