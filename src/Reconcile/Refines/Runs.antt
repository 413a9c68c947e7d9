-- ===== src/Reconcile/Refines/Runs.antt =====
-- The runs of `reconcile` against the steps of System.
use kubeflow_profile_control.Prelude.{
  [], ◌∷◌, String, arith, ◌≡◌, refl, sym, ap, ◌∙◌, Option, none, some, Option-cases, inl, inr, ◌==◌,
  if◌then◌else◌,
}
use kubeflow_profile_control.Api.Meta.{NamespacedName, Namespace, ObjectMeta}
use kubeflow_profile_control.Api.Profile.{Profile}
use kubeflow_profile_control.Api.Config.{Config}
use kubeflow_profile_control.Labels.{made, set_namespace_labels}
use kubeflow_profile_control.Labels.Merge.{merge, lookup-set_labels}
use kubeflow_profile_control.Prelude.Dict.{Dict, lookup, HasDistinctKeys}
use kubeflow_profile_control.Cluster.{
  Env, State, Outcome, ok, err, panic, Error, Object, Reply, found, failed, update,
  inc_request_counter,
}
use kubeflow_profile_control.Cluster.Keeps.{IsReferenceSetter, IsRetry, Keeps-bind}
use kubeflow_profile_control.Reconcile.{
  owner_annotation, Flow, go_on, return, annotation, wanted_namespace, with_finalizer,
  append_error_condition_and_return, fail_counted, namespace_by_name, after_retry, await_namespace,
  after_create, create_namespace, after_get_namespace, after_set_reference, ensure_namespace,
  after_update, reconcile_finalizer, after_namespace, after_get_config, after_get_profile,
  reconcile,
}
use kubeflow_profile_control.Reconcile.Writes.{wanted_namespace-name, wanted_namespace-owner}
use kubeflow_profile_control.Reconcile.Refines.{
  Came, came_on, came_after, Refines, Refines-update_profile, Refines-append_error_condition,
  Refines-existing_namespace,
}
use kubeflow_profile_control.System.{
  Many, here, View, Evolves, IsCreated, created, IsApiServer, Step, create,
}

module _ {World : Type 0} (env : Env World) (view : View World) (server : IsApiServer view env)
    (p : Profile) (w₀ : World) where
  Refines-after_update : (e : Option Error) → Refines env view server p w₀ (after_update env p e)
  unfolding after_update fail_counted
  Refines-after_update none s h = h
  Refines-after_update (some e) s h = ground arith

  Refines-finalizer_update :
      (p' : Profile)
      → with_finalizer p ≡ some p'
      → Refines env view server p w₀ (update env.profiles Object.profile p')
  unfolding with_finalizer
  Refines-finalizer_update p' e =
      Refines-update_profile env view server p w₀ p' (ground arith) (ground arith)

  Refines-reconcile_finalizer : Refines env view server p w₀ (reconcile_finalizer env p)
  unfolding reconcile_finalizer
  Refines-reconcile_finalizer s h = elim (Option-cases (with_finalizer p)) [
    | inl none_left ↦ rw (none_left, reconcile_finalizer) h
    | inr (p', e) ↦
        rw (e, reconcile_finalizer)
          (Keeps-bind (Came env view server p w₀) (update env.profiles Object.profile p')
            (after_update env p) (Refines-finalizer_update p' e) Refines-after_update s h)
  ]

  Refines-after_namespace :
      (flow : Flow) → Refines env view server p w₀ (after_namespace env p flow)
  unfolding after_namespace
  Refines-after_namespace return s h = h
  Refines-after_namespace go_on s h =
      Keeps-bind (Came env view server p w₀) (reconcile_finalizer env p)
        (λ _. inc_request_counter "reconcile") Refines-reconcile_finalizer (λ _ t k. k) s h

  Refines-namespace_by_name :
      (name : String) → Refines env view server p w₀ (namespace_by_name env name)
  unfolding namespace_by_name
  Refines-namespace_by_name name s h =
      let came =
        came_on env view server p w₀ h
          (server.get_namespace (record { namespace = ""; name = name }) s.world) in
      ground arith

  Refines-after_retry : (r : Outcome Namespace) → Refines env view server p w₀ (after_retry env p r)
  unfolding after_retry
  Refines-after_retry (ok ns) s h = h
  Refines-after_retry (err e) s h =
      Keeps-bind (Came env view server p w₀) (append_error_condition_and_return env p _)
        (λ _ s. (ok return, s)) (Refines-append_error_condition env view server p w₀ _) (λ _ t k. k)
        (record s { events = _ }) h
  Refines-after_retry panic s h = h

  wanted_namespace-labels :
      (config : Config) (labels : Option (Dict String)) (k : String)
      → HasDistinctKeys (made config.spec.namespace.default_labels)
      → labels ≡ (wanted_namespace p config).meta.labels
      → lookup k (made labels)
        ≡ merge
            (if "istio-injection" == k then some "enabled" else none)
            (lookup k (made config.spec.namespace.default_labels))
  unfolding wanted_namespace set_namespace_labels lookup
  wanted_namespace-labels config labels k distinct same =
      ap (λ m. lookup k (made m)) same
      ∙ lookup-set_labels (("istio-injection", "enabled") ∷ []) _ k distinct

  module _ (setter : IsReferenceSetter env) (retry : IsRetry env) where
    Refines-await_namespace :
        (name : String) → Refines env view server p w₀ (await_namespace env p name)
    unfolding await_namespace
    Refines-await_namespace name s h =
        Refines-after_retry (env.retry 5 (namespace_by_name env name) s).0
          (env.retry 5 (namespace_by_name env name) s).1
          (retry.keeps (Came env view server p w₀) 5 (namespace_by_name env name)
            (Refines-namespace_by_name name) s h)

    Refines-after_create :
        (ns : Namespace) (e : Option Error) → Refines env view server p w₀ (after_create env p ns e)
    unfolding after_create fail_counted
    Refines-after_create ns none s h = Refines-await_namespace ns.meta.name s h
    Refines-after_create ns (some e) s h = h

    module _ (config : Config)
        (configured : view.Configured (made config.spec.namespace.default_labels))
        (distinct : HasDistinctKeys (made config.spec.namespace.default_labels)) (ns : Namespace)
        (named : ns.meta.name ≡ p.meta.name)
        (labelled : ns.meta.labels ≡ (wanted_namespace p config).meta.labels)
        (owned : annotation owner_annotation ns ≡ some p.spec.owner.name) where
      Refines-create_namespace : Refines env view server p w₀ (create_namespace env p ns)
      unfolding create_namespace
      Refines-create_namespace s h =
          Refines-after_create ns (env.namespaces.create ns s.world).0
            (record { world = _; events = _ })
            (came_after env view server p w₀ (λ x y e c. Step-create x y c) h
              (server.create_namespace ns s.world))
        where
          Step-create : (x y : World) → IsCreated view ns x y → Step view p x y
          Step-create x y (created free put) =
              create ns (made config.spec.namespace.default_labels) configured
                (λ k. wanted_namespace-labels config ns.meta.labels k distinct labelled) named owned
                (sym (ap (view.namespace_at x) named) ∙ free) put

      -- A namespace that was found is one that the server has stored under the profile's name.
      Refines-after_get_namespace :
          (r : Reply Namespace) (s : State World)
          → ((old : Namespace)
              → r ≡ found old
              → (old.meta.name ≡ p.meta.name) × view.Seen s.world old)
          → Came env view server p w₀ s
          → Came env view server p w₀ (after_get_namespace env p config ns r s).1
      unfolding after_get_namespace fail_counted
      Refines-after_get_namespace (found old) s stored h =
          let (name, seen) = stored old refl in
          Refines-existing_namespace env view server p w₀ config configured distinct old name s seen
            h
      Refines-after_get_namespace (failed e) s stored h = ground (arith, Refines-create_namespace s)

    Refines-after_set_reference :
        (config : Config) (r : Reply ObjectMeta)
        → view.Configured (made config.spec.namespace.default_labels)
        → HasDistinctKeys (made config.spec.namespace.default_labels)
        → env.set_controller_reference p (wanted_namespace p config).meta ≡ r
        → Refines env view server p w₀
            (after_set_reference env p config (wanted_namespace p config) r)
    unfolding after_set_reference fail_counted
    Refines-after_set_reference config (failed e) configured distinct set s h = h
    Refines-after_set_reference config (found m) configured distinct set s h =
        let key : NamespacedName = record { namespace = ""; name = m.name } in
        let name = setter.keeps_name p _ m set ∙ wanted_namespace-name p config in
        Refines-after_get_namespace config configured distinct
          (record (wanted_namespace p config) { meta = m }) name (setter.keeps_labels p _ m set)
          (wanted_namespace-owner p config m (setter.keeps_annotations p _ m set))
          (env.namespaces.get key s.world).0
          (record s { world = (env.namespaces.get key s.world).1 })
          (λ old e. (
            server.namespace_name key s.world old e ∙ name,
            server.namespace_seen key s.world old e,
          ))
          (came_on env view server p w₀ h (server.get_namespace key s.world))

    Refines-ensure_namespace :
        (config : Config)
        → view.Configured (made config.spec.namespace.default_labels)
        → HasDistinctKeys (made config.spec.namespace.default_labels)
        → Refines env view server p w₀ (ensure_namespace env p config)
    unfolding ensure_namespace
    Refines-ensure_namespace config configured distinct s h =
        Refines-after_set_reference config
          (env.set_controller_reference p (wanted_namespace p config).meta) configured distinct refl
          s h

    Refines-after_get_config :
        (r : Reply Config)
        → ((config : Config)
            → r ≡ found config
            → view.Configured (made config.spec.namespace.default_labels)
              × HasDistinctKeys (made config.spec.namespace.default_labels))
        → Refines env view server p w₀ (after_get_config env p r)
    unfolding after_get_config
    Refines-after_get_config (failed e) configured s h = h
    Refines-after_get_config (found config) configured s h =
        Keeps-bind (Came env view server p w₀) (ensure_namespace env p config)
          (after_namespace env p)
          (Refines-ensure_namespace config (configured config refl).0 (configured config refl).1)
          Refines-after_namespace s h

module _ {World : Type 0} (env : Env World) (view : View World)
    (server : IsApiServer view env) where
  -- If a run of `reconcile` reads the profile, then, whatever the other writers do between its
  -- calls and whichever of its calls fail, it takes the API server only through steps that the
  -- profile entitles to: steps of the other writers; the creation of the namespace of the
  -- profile's name, where none is stored, with the profile's owner in its `owner` annotation, and at
  -- each label what the documented rule makes of Istio's label and the default ones of a Config; an
  -- update of that namespace as it is stored at that moment, where its annotation is the profile's
  -- owner, to what the rule makes at each label of its own and the default ones, with nothing else
  -- changed, so that no other writer's update is lost; and writes of the profile that keep its name
  -- and its spec.
  pub reconcile_refines :
      IsReferenceSetter env
      → IsRetry env
      → (key : NamespacedName) (p : Profile) (s : State World)
      → (env.profiles.get key s.world).0 ≡ found p
      → Many (Step view p) s.world (reconcile env key s).1.world
  unfolding reconcile after_get_profile
  reconcile_refines setter retry key p s h =
      let config_key : NamespacedName = record { namespace = ""; name = "config" } in
      let w = (env.profiles.get key s.world).1 in
      let (r, w') = env.configs.get config_key w in
      rw h (
        Refines-after_get_config env view server p s.world setter retry r
          (λ config e. (
            server.config_labels config_key w config e,
            server.config_distinct config_key w config e,
          ))
          (record s { world = w' })
          (came_on env view server p s.world
            (came_on env view server p s.world here (server.get_profile key s.world))
            (server.get_config config_key w)))

  -- If a run of `reconcile` cannot read the profile, then only the other writers change anything.
  pub reconcile_unread :
      (key : NamespacedName) (e : Error) (s : State World)
      → (env.profiles.get key s.world).0 ≡ failed e
      → Evolves view s.world (reconcile env key s).1.world
  unfolding reconcile after_get_profile fail_counted
  reconcile_unread key e s h = let read = server.get_profile key s.world in rw h (ground arith)
