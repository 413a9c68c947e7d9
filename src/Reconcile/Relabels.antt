-- ===== src/Reconcile/Relabels.antt =====
-- What `reconcile` leaves on the server where it finds the profile's namespace and succeeds.
use kubeflow_profile_control.Prelude.{String, ◌≡◌, refl, ◌∙◌, true, some, List, [], ◌∷◌, arith}
use kubeflow_profile_control.Prelude.Dict.{lookup, HasDistinctKeys, deep_equal, deep_equal_iff}
use kubeflow_profile_control.Api.Meta.{NamespacedName, ObjectMeta, Namespace}
use kubeflow_profile_control.Api.Profile.{Profile}
use kubeflow_profile_control.Api.Config.{Config}
use kubeflow_profile_control.Labels.{made, set_namespace_labels}
use kubeflow_profile_control.Labels.Merge.{merge, lookup-set_labels}
use kubeflow_profile_control.Cluster.{
  Env, State, Outcome, ok, err, panic, Object, Event, update_object, found, continue,
}
use kubeflow_profile_control.Cluster.Keeps.{IsReferenceSetter}
use kubeflow_profile_control.Reconcile.{
  owner_annotation, Flow, go_on, return, annotation, is_owner, existing_namespace, write_labels,
  after_update_namespace, after_get_namespace, reconcile_finalizer, after_namespace, reconcile,
}
use kubeflow_profile_control.Reconcile.Reads.{Answers, reconcile-Answers}
use kubeflow_profile_control.Reconcile.Settled.{is_owner_self}
use kubeflow_profile_control.Reconcile.Finalizer.{finalized}

-- The namespace that the server holds: the last one written, or the one that was read.
abbrev pub held_namespace : List Event → Namespace → Namespace
held_namespace [] ns = ns
held_namespace (update_object (Object.namespace n) ∷ _) ns = n
held_namespace (_ ∷ events) ns = held_namespace events ns

-- And the profile.
abbrev pub held_profile : List Event → Profile → Profile
held_profile [] p = p
held_profile (update_object (Object.profile q) ∷ _) p = q
held_profile (_ ∷ events) p = held_profile events p

-- At each key the label is what the rule for labels makes of the old one and the default one, and
-- nothing else of the namespace is another.
pub record IsRelabelled (config : Config) (old new : Namespace) : Type 0 where
  pub labels :
      (k : String)
      → lookup k (made new.meta.labels)
        ≡ merge
            (lookup k (made old.meta.labels))
            (lookup k (made config.spec.namespace.default_labels))
  pub rest : new ≡ record old { meta = record old.meta { labels = new.meta.labels } }

module _ (config : Config) (ns : Namespace)
    (distinct : HasDistinctKeys (made config.spec.namespace.default_labels)) where
  labelled-IsRelabelled :
      IsRelabelled config ns (set_namespace_labels ns (made config.spec.namespace.default_labels))
  unfolding set_namespace_labels
  labelled-IsRelabelled = record {
    labels = λ k. lookup-set_labels (made ns.meta.labels) _ k distinct;
    rest = refl;
  }

  equal-IsRelabelled :
      deep_equal
          (made ns.meta.labels)
          (made (set_namespace_labels ns (made config.spec.namespace.default_labels)).meta.labels)
        ≡ true
      → IsRelabelled config ns ns
  equal-IsRelabelled same = record {
    labels = λ k. (deep_equal_iff _ _).0 same k ∙ labelled-IsRelabelled.labels k;
    rest = refl;
  }

  module _ {World : Type 0} (env : Env World) (p : Profile) where
    -- Where a stage lets `reconcile` go on, the namespace is relabelled and the profile is as it
    -- was.
    abbrev AtEnd : Outcome Flow → State World → Type 0
    AtEnd (ok go_on) t =
        IsRelabelled config ns (held_namespace t.events ns) × (held_profile t.events p ≡ p)
    AtEnd (ok return) t = ⊥
    AtEnd _ t = Unit

    existing_namespace-AtEnd :
        (t : State World)
        → t.events ≡ []
        → is_owner (annotation owner_annotation ns) p.spec.owner.name ≡ true
        → let (r, t') = existing_namespace env p config ns t in AtEnd r t'
    unfolding existing_namespace write_labels after_update_namespace
    existing_namespace-AtEnd t none_yet owned =
        ground (arith, equal-IsRelabelled, labelled-IsRelabelled)

    after_namespace-held_namespace :
        (t : State World)
        → held_namespace (after_namespace env p go_on t).1.events ns ≡ held_namespace t.events ns
    unfolding after_namespace reconcile_finalizer
    after_namespace-held_namespace t = ground arith

    after_namespace-held_profile :
        (t : State World)
        → held_profile t.events p ≡ p
        → held_profile (after_namespace env p go_on t).1.events p ≡ finalized p
    unfolding after_namespace reconcile_finalizer
    after_namespace-held_profile t unwritten = ground arith

    after_namespace-AtEnd :
        (r : Outcome Flow) (t : State World)
        → AtEnd r t
        → let (r', t') = continue r (after_namespace env p) t in
          r' ≡ ok tt
          → IsRelabelled config ns (held_namespace t'.events ns)
            × (held_profile t'.events p ≡ finalized p)
    after_namespace-AtEnd (ok go_on) t (relabelled, unwritten) done =
        (rw (after_namespace-held_namespace t) relabelled, after_namespace-held_profile t unwritten)
    after_namespace-AtEnd (ok return) t h done = absurd h
    after_namespace-AtEnd (err e) t h done = cc
    after_namespace-AtEnd panic t h done = cc

pub reconcile-held :
    {World : Type 0} (env : Env World)
    → IsReferenceSetter env
    → (key : NamespacedName) (s : State World) (p : Profile) (config : Config) (m : ObjectMeta)
      (ns : Namespace) (w : World)
    → Answers env key s p config m (found ns) w
    → annotation owner_annotation ns ≡ some p.spec.owner.name
    → HasDistinctKeys (made config.spec.namespace.default_labels)
    → s.events ≡ []
    → (reconcile env key s).0 ≡ ok tt
    → let after = (reconcile env key s).1.events in
      IsRelabelled config ns (held_namespace after ns) × (held_profile after p ≡ finalized p)
unfolding after_get_namespace
reconcile-held {World} env setter key s p config m ns w a owned distinct none_yet done =
    let start : State World = record { world = w; events = s.events } in
    let named = is_owner_self (annotation owner_annotation ns) p.spec.owner.name owned in
    let (r, t) = existing_namespace env p config ns start in
    rw (reconcile-Answers env setter a) (
      after_namespace-AtEnd config ns distinct env p r t
        (existing_namespace-AtEnd config ns distinct env p start none_yet named)
        (rw (reconcile-Answers env setter a) at done))
