-- ===== src/Reconcile/Settled.antt =====
-- `reconcile` again, after it has done its work.
use kubeflow_profile_control.Prelude.{String, ◌≡◌, true, Option, none, some, ◌∷◌, arith, eq_iff}
use kubeflow_profile_control.Prelude.Dict.{HasDistinctKeys, deep_equal}
use kubeflow_profile_control.Api.Meta.{NamespacedName, ObjectMeta, Namespace}
use kubeflow_profile_control.Api.Profile.{Profile}
use kubeflow_profile_control.Api.Config.{Config}
use kubeflow_profile_control.Labels.{made, set_namespace_labels}
use kubeflow_profile_control.Labels.Merge.{set_labels_settled}
use kubeflow_profile_control.Cluster.{Env, State, ok, request, found, truncate_tag}
use kubeflow_profile_control.Cluster.Keeps.{IsReferenceSetter}
use kubeflow_profile_control.Reconcile.{
  owner_annotation, annotation, is_owner, after_get_namespace, after_namespace, reconcile,
}
use kubeflow_profile_control.Reconcile.Reads.{Answers, reconcile-Answers}
use kubeflow_profile_control.Reconcile.Finalizer.{finalized, with_finalizer_settled}

pub is_owner_self : (o : Option String) (name : String) → o ≡ some name → is_owner o name ≡ true
unfolding is_owner
is_owner_self none name h = cc
is_owner_self (some owner) name h = ground (arith, eq_iff owner name)

settled_labels :
    (ns old : Namespace) (config : Config)
    → HasDistinctKeys (made config.spec.namespace.default_labels)
    → ns.meta.labels
      ≡ (set_namespace_labels old (made config.spec.namespace.default_labels)).meta.labels
    → deep_equal
        (made ns.meta.labels)
        (made (set_namespace_labels ns (made config.spec.namespace.default_labels)).meta.labels)
      ≡ true
unfolding set_namespace_labels
settled_labels ns old config d same =
    rw same
      (set_labels_settled (made old.meta.labels) (made config.spec.namespace.default_labels) d)

-- If the profile and the config are read, the owner reference is set, and the namespace is read
-- with the profile's owner and with labels that the default ones leave as they are, while the
-- profile has the finalizers that an earlier run left and the same deletion timestamp, then
-- `reconcile` succeeds and writes nothing: it only counts itself.
pub reconcile_unchanged :
    {World : Type 0} (env : Env World)
    → IsReferenceSetter env
    → (key : NamespacedName) (s : State World) (p p' : Profile) (config : Config) (m : ObjectMeta)
      (ns : Namespace) (w : World)
    → Answers env key s p config m (found ns) w
    → annotation owner_annotation ns ≡ some p.spec.owner.name
    → deep_equal
        (made ns.meta.labels)
        (made (set_namespace_labels ns (made config.spec.namespace.default_labels)).meta.labels)
      ≡ true
    → p.meta.finalizers ≡ (finalized p').meta.finalizers
    → p.meta.deletion_timestamp ≡ p'.meta.deletion_timestamp
    → reconcile env key s
      ≡ (ok tt, record { world = w; events = request (truncate_tag "reconcile") ∷ s.events })
unfolding after_get_namespace after_namespace
reconcile_unchanged env setter key s p p' config m ns w a owned unchanged finalizers deletion =
    rw (reconcile-Answers env setter a) (
      rw (is_owner_self (annotation owner_annotation ns) p.spec.owner.name owned)
        (rw unchanged (ground (arith, with_finalizer_settled p' p finalizers deletion))))

-- If the profile and the config are read, the owner reference is set, and the namespace is read
-- with the profile's owner and the labels that an earlier run set, while the profile has the
-- finalizers that an earlier run left and the same deletion timestamp, then `reconcile` succeeds
-- and writes nothing: it only counts itself. The keys of the default labels are distinct.
pub reconcile_settled :
    {World : Type 0} (env : Env World)
    → IsReferenceSetter env
    → (key : NamespacedName) (s : State World) (p p' : Profile) (config : Config) (m : ObjectMeta)
      (ns old : Namespace) (w : World)
    → Answers env key s p config m (found ns) w
    → annotation owner_annotation ns ≡ some p.spec.owner.name
    → HasDistinctKeys (made config.spec.namespace.default_labels)
    → ns.meta.labels
      ≡ (set_namespace_labels old (made config.spec.namespace.default_labels)).meta.labels
    → p.meta.finalizers ≡ (finalized p').meta.finalizers
    → p.meta.deletion_timestamp ≡ p'.meta.deletion_timestamp
    → reconcile env key s
      ≡ (ok tt, record { world = w; events = request (truncate_tag "reconcile") ∷ s.events })
reconcile_settled env setter key s p p' config m ns old w a owned d labels finalizers deletion =
    reconcile_unchanged env setter key s p p' config m ns w a owned
      (settled_labels ns old config d labels) finalizers deletion
