-- ===== src/Reconcile/Creates.antt =====
-- A profile whose namespace is not there yet, and the run after that.
use kubeflow_profile_control.Prelude.{
  String, ◌≡◌, refl, sym, ap, ◌∙◌, true, false, none, some, [], ◌∷◌, arith,
}
use kubeflow_profile_control.Prelude.Dict.{lookup, HasDistinctKeys}
use kubeflow_profile_control.Api.Meta.{NamespacedName, ObjectMeta, Namespace, zero_meta}
use kubeflow_profile_control.Api.Profile.{Profile}
use kubeflow_profile_control.Api.Config.{Config}
use kubeflow_profile_control.Slices.{contains_string}
use kubeflow_profile_control.Labels.{made, set_namespace_labels}
use kubeflow_profile_control.Cluster.{
  Env, State, Outcome, ok, Error, Object, create_object, update_object, request, found, failed,
  truncate_tag,
}
use kubeflow_profile_control.Cluster.Keeps.{IsReferenceSetter, IsRetry}
use kubeflow_profile_control.Reconcile.{
  owner_annotation, istio_injection_label, profile_finalizer, annotation, wanted_namespace,
  with_finalizer, go_on, namespace_by_name, after_get_namespace, create_namespace, after_create,
  await_namespace, after_retry, reconcile_finalizer, after_namespace, reconcile,
}
use kubeflow_profile_control.Reconcile.Reads.{Answers, cluster_key, reconcile-Answers}
use kubeflow_profile_control.Reconcile.Finalizer.{finalized}
use kubeflow_profile_control.Reconcile.Settled.{reconcile_settled}

-- The namespace that a run creates, once its metadata has the owner reference.
abbrev pub created : Profile → Config → ObjectMeta → Namespace
created p config m = record (wanted_namespace p config) { meta = m }

-- The namespace was not found, and its creation succeeded and is seen by the first read after it;
-- the profile is not being deleted, lacks the finalizer, and is written with it.
pub record Creates {World : Type 0} (env : Env World) (key : NamespacedName) (s : State World)
    (p : Profile) (config : Config) (m : ObjectMeta) (w : World) : Type 0 where
  pub missing : Error
  pub before : World
  pub after_creation : World
  pub after_read : World
  pub visible : Namespace
  pub answers : Answers env key s p config m (failed missing) before
  pub not_found : env.is_not_found missing ≡ true
  pub creation : env.namespaces.create (created p config m) before ≡ (none, after_creation)
  pub read_again :
      env.namespaces.get (cluster_key p.meta.name) after_creation ≡ (found visible, after_read)
  pub live : p.meta.deletion_timestamp ≡ none
  pub unfinalized : contains_string p.meta.finalizers profile_finalizer ≡ false
  pub finalization : env.profiles.update (finalized p) after_read ≡ (none, w)

with_finalizer-finalized :
    (p : Profile)
    → p.meta.deletion_timestamp ≡ none
    → contains_string p.meta.finalizers profile_finalizer ≡ false
    → with_finalizer p ≡ some (finalized p)
unfolding with_finalizer
with_finalizer-finalized p live unfinalized = ground arith

wanted_namespace-name :
    (p : Profile) (config : Config) → (wanted_namespace p config).meta.name ≡ p.meta.name
unfolding wanted_namespace
wanted_namespace-name p config = refl

after_namespace-finalizes :
    {World : Type 0} (env : Env World) (p q : Profile) (s : State World) (w : World)
    → with_finalizer p ≡ some q
    → env.profiles.update q s.world ≡ (none, w)
    → after_namespace env p go_on s ≡ (
      ok tt,
      record {
        world = w;
        events = request (truncate_tag "reconcile") ∷ update_object (Object.profile q) ∷ s.events;
      },
    )
unfolding after_namespace reconcile_finalizer
after_namespace-finalizes env p q s w e h = rw (e, reconcile_finalizer) (rw h)

module _ {World : Type 0} (env : Env World) (setter : IsReferenceSetter env)
    (retry : IsRetry env) where
  namespace_by_name-found :
      (name : String) (s : State World) (ns : Namespace) (w : World)
      → env.namespaces.get (cluster_key name) s.world ≡ (found ns, w)
      → namespace_by_name env name s ≡ (ok ns, record s { world = w })
  unfolding namespace_by_name
  namespace_by_name-found name s ns w e = rw e

  -- For a profile that is not being deleted and lacks the finalizer, a run that finds no
  -- namespace and whose calls succeed writes two things, in this order: the wanted namespace,
  -- and the profile with the finalizer. Then it counts itself and succeeds.
  pub reconcile-Creates :
      (key : NamespacedName) (s : State World) (p : Profile) (config : Config) (m : ObjectMeta)
      (w : World)
      → Creates env key s p config m w
      → reconcile env key s ≡ (
        ok tt,
        record {
          world = w;
          events =
              request (truncate_tag "reconcile")
              ∷ update_object (Object.profile (finalized p))
              ∷ create_object (Object.namespace (created p config m))
              ∷ s.events;
        },
      )
  unfolding after_get_namespace create_namespace after_create await_namespace after_retry
  reconcile-Creates key s p config m w c =
      let named =
        setter.keeps_name p _ m c.answers.reference_set ∙ wanted_namespace-name p config in
      let here : State World = record {
        world = c.after_creation;
        events = create_object (Object.namespace (created p config m)) ∷ s.events;
      } in
      rw (reconcile-Answers env setter c.answers) (
        rw c.not_found (
          rw c.creation (
            rw
              (retry.stops 5 (namespace_by_name env m.name) here
                (record here { world = c.after_read }) c.visible
                (namespace_by_name-found m.name here c.visible c.after_read (
                  ap (λ n. env.namespaces.get (cluster_key n) c.after_creation) named
                  ∙ c.read_again)))
              (after_namespace-finalizes env p (finalized p) (record here { world = c.after_read })
                w (with_finalizer-finalized p c.live c.unfinalized) c.finalization))))

-- The server holds what such a run wrote: of the namespace the labels and annotations, of the
-- profile the spec, the finalizers and the deletion timestamp. The rest of the metadata is its own.
pub record Holds (p : Profile) (config : Config) (m : ObjectMeta) (p' : Profile) (ns : Namespace)
    : Type 0 where
  pub labels : ns.meta.labels ≡ (created p config m).meta.labels
  pub annotations : ns.meta.annotations ≡ (created p config m).meta.annotations
  pub spec : p'.spec ≡ p.spec
  pub finalizers : p'.meta.finalizers ≡ (finalized p).meta.finalizers
  pub deletion : p'.meta.deletion_timestamp ≡ p.meta.deletion_timestamp

-- The namespace that the default labels are merged into.
base_namespace : Profile → Namespace
base_namespace p = record {
  meta = record zero_meta {
    name = p.meta.name;
    labels = some ((istio_injection_label, "enabled") ∷ []);
    annotations = some ((owner_annotation, p.spec.owner.name) ∷ []);
  };
  phase = "";
}

wanted_namespace-labels :
    (p : Profile) (config : Config)
    → (wanted_namespace p config).meta.labels
      ≡ (set_namespace_labels
          (base_namespace p)
          (made config.spec.namespace.default_labels)).meta.labels
unfolding wanted_namespace base_namespace
wanted_namespace-labels p config = refl

wanted_namespace-annotation :
    (p : Profile) (config : Config) (ns : Namespace)
    → ns.meta.annotations ≡ (wanted_namespace p config).meta.annotations
    → annotation owner_annotation ns ≡ some p.spec.owner.name
unfolding wanted_namespace annotation lookup
wanted_namespace-annotation p config ns e = ap (λ a. lookup owner_annotation (made a)) e

module _ {World : Type 0} (env : Env World) (setter : IsReferenceSetter env)
    (retry : IsRetry env) where
  -- One run is enough: after a run that creates the namespace of a profile that is not being
  -- deleted and lacks the finalizer, if the next run reads what that run wrote (whatever other
  -- metadata the server added), it succeeds and writes nothing, so that the two runs together
  -- have created the namespace once and written the profile once. The keys of the default labels
  -- are distinct.
  pub reconcile_converges :
      (key : NamespacedName) (s : State World) (p : Profile) (config : Config) (m : ObjectMeta)
      (w : World) (p' : Profile) (m' : ObjectMeta) (ns : Namespace) (w' : World)
      → Creates env key s p config m w
      → Holds p config m p' ns
      → Answers env key (reconcile env key s).1 p' config m' (found ns) w'
      → HasDistinctKeys (made config.spec.namespace.default_labels)
      → reconcile env key (reconcile env key s).1 ≡ (
        ok tt,
        record {
          world = w';
          events =
              request (truncate_tag "reconcile")
              ∷ request (truncate_tag "reconcile")
              ∷ update_object (Object.profile (finalized p))
              ∷ create_object (Object.namespace (created p config m))
              ∷ s.events;
        },
      )
  reconcile_converges key s p config m w p' m' ns w' c h a distinct =
      reconcile_settled env setter key (reconcile env key s).1 p' p config m' ns (base_namespace p)
        w' a
        (wanted_namespace-annotation p config ns
            (h.annotations ∙ setter.keeps_annotations p _ m c.answers.reference_set)
          ∙ ap (λ spec. some spec.owner.name) (sym h.spec))
        distinct
        (h.labels
          ∙ setter.keeps_labels p _ m c.answers.reference_set
          ∙ wanted_namespace-labels p config)
        h.finalizers h.deletion
      ∙ ap
          (λ (x : Outcome (Unit {0}) × State World). (
            ok tt,
            record { world = w'; events = request (truncate_tag "reconcile") ∷ x.1.events },
          ))
          (reconcile-Creates env setter retry key s p config m w c)
