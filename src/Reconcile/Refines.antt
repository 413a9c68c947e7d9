-- ===== src/Reconcile/Refines.antt =====
-- `reconcile` against the steps of System: what its writes do to the API server.
pub mod Runs
use kubeflow_profile_control.Prelude.{
  String, arith, ◌≡◌, ◌≢◌, refl, sym, ap, ◌∙◌, true, false, Bool, Bool-cases, inl, inr, Option,
  none, some, if◌then◌else◌,
}
use kubeflow_profile_control.Prelude.Dict.{Dict, deep_equal, HasDistinctKeys}
use kubeflow_profile_control.Api.Meta.{NamespacedName, Namespace, ObjectMeta}
use kubeflow_profile_control.Api.Profile.{Profile}
use kubeflow_profile_control.Api.Config.{Config}
use kubeflow_profile_control.Labels.{made, set_namespace_labels}
use kubeflow_profile_control.Labels.Merge.{lookup-set_labels}
use kubeflow_profile_control.Cluster.{
  Env, Act, State, Outcome, ok, err, panic, Error, Object, Reply, found, failed, get, create,
  update, return_error,
}
use kubeflow_profile_control.Cluster.Keeps.{IsReferenceSetter, IsRetry, Keeps, Keeps-bind}
use kubeflow_profile_control.Reconcile.{
  owner_annotation, Flow, go_on, return, annotation, is_owner, wanted_namespace, with_condition,
  with_finalizer, append_error_condition_and_return, fail_counted, namespace_by_name, after_retry,
  await_namespace, after_create, after_update_namespace, write_labels, refuse_takeover,
  existing_namespace, create_namespace, after_get_namespace, after_set_reference, ensure_namespace,
  after_update, reconcile_finalizer, after_namespace, after_get_config, after_get_profile,
  reconcile,
}
use kubeflow_profile_control.Reconcile.Writes.{
  eq_of_is_owner, wanted_namespace-name, wanted_namespace-owner,
}
use kubeflow_profile_control.System.{
  Many, here, next, View, Evolves, IsCreated, created, IsUpdated, updated, IsPut, Attempt, refused,
  done, IsApiServer, Step, other, save, relabel,
}
use kubeflow_profile_control.System

module _ {World : Type 0} (env : Env World) (view : View World) (server : IsApiServer view env)
    (p : Profile) (w₀ : World) where
  -- The server has come here by steps that the profile entitles to.
  abbrev pub Came : State World → Type 0
  Came s = Many (Step view p) w₀ s.world

  pub came_on : {u v : World} → Many (Step view p) w₀ u → Evolves view u v → Many (Step view p) w₀ v
  came_on h here = h
  came_on h (next e o) = next (came_on h e) (other o)

  pub came_after :
      {R : World → World → Type 0} {u v : World}
      → ((x y : World) → Evolves view u x → R x y → Step view p x y)
      → Many (Step view p) w₀ u
      → Attempt view R u v
      → Many (Step view p) w₀ v
  came_after step h (refused e) = came_on h e
  came_after step h (done u e r) = next (came_on h e) (step u _ e r)

  abbrev pub Refines : {A : Type 0} → Act World A → Type 0
  Refines = Keeps Came

  pub Refines-update_profile :
      (p' : Profile)
      → p'.meta.name ≡ p.meta.name
      → p'.spec ≡ p.spec
      → Refines (update env.profiles Object.profile p')
  Refines-update_profile p' name spec s h =
      came_after (λ x y _. save p' name spec) h (server.update_profile p' s.world)

  Refines-return_error : (e : Option Error) → Refines (return_error e)
  Refines-return_error none s h = h
  Refines-return_error (some e) s h = h

  pub Refines-append_error_condition :
      (text : String) → Refines (append_error_condition_and_return env p text)
  unfolding append_error_condition_and_return with_condition
  Refines-append_error_condition text =
      Keeps-bind Came (update env.profiles Object.profile (with_condition p text)) return_error
        (Refines-update_profile (with_condition p text) refl refl) Refines-return_error

  Refines-refuse_takeover : Refines (refuse_takeover env p)
  unfolding refuse_takeover
  Refines-refuse_takeover s h =
      Keeps-bind Came (append_error_condition_and_return env p _) (λ _ s. (ok return, s))
        (Refines-append_error_condition _) (λ _ t k. k) (record s { events = _ }) h

  Refines-after_update_namespace : (e : Option Error) → Refines (after_update_namespace env e)
  unfolding after_update_namespace fail_counted
  Refines-after_update_namespace none s h = h
  Refines-after_update_namespace (some e) s h = h

  seen_on : {u v : World} (ns : Namespace) → view.Seen u ns → Evolves view u v → view.Seen v ns
  seen_on ns seen here = seen
  seen_on ns seen (next e o) = server.seen_later _ _ ns o (seen_on ns seen e)

  -- The version that was read is written only where it is still the one that is stored.
  Step-relabel :
      (ns : Namespace) (labels : Dict String) {u x y : World}
      → view.Configured labels
      → ns.meta.name ≡ p.meta.name
      → annotation owner_annotation ns ≡ some p.spec.owner.name
      → view.Seen u ns
      → HasDistinctKeys labels
      → Evolves view u x
      → IsUpdated view (set_namespace_labels ns labels) x y
      → Step view p x y
  unfolding set_namespace_labels
  Step-relabel ns labels {x} configured name owner seen distinct e
        (updated current stored version put) =
      relabel ns (set_namespace_labels ns labels) labels configured name owner
        (sym (ap (view.namespace_at x) name)
          ∙ stored
          ∙ ap some (server.same_version x ns current (seen_on ns seen e) stored version))
        refl (λ k. lookup-set_labels (made ns.meta.labels) labels k distinct) put

  module _ (config : Config)
      (configured : view.Configured (made config.spec.namespace.default_labels))
      (distinct : HasDistinctKeys (made config.spec.namespace.default_labels)) where
    module _ (ns : Namespace) (name : ns.meta.name ≡ p.meta.name) where
      Refines-write_labels :
          (s : State World)
          → annotation owner_annotation ns ≡ some p.spec.owner.name
          → view.Seen s.world ns
          → Came s
          → Came
              (write_labels env
                (set_namespace_labels ns (made config.spec.namespace.default_labels))
                s).1
      unfolding write_labels set_namespace_labels
      Refines-write_labels s owner seen h =
          let labels = made config.spec.namespace.default_labels in
          let labelled = set_namespace_labels ns labels in
          Refines-after_update_namespace (env.namespaces.update labelled s.world).0
            (record { world = _; events = _ })
            (came_after (λ x y. Step-relabel ns labels configured name owner seen distinct) h
              (server.update_namespace labelled s.world (server.versioned s.world ns seen)))

      pub Refines-existing_namespace :
          (s : State World)
          → view.Seen s.world ns
          → Came s
          → Came (existing_namespace env p config ns s).1
      unfolding existing_namespace
      Refines-existing_namespace s seen h = ground (
        arith,
        eq_of_is_owner (annotation owner_annotation ns) p.spec.owner.name,
        Refines-write_labels s,
        Refines-refuse_takeover s,
      )
