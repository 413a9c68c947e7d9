-- ===== src/Reconcile/Reads.antt =====
-- `reconcile` after its reads have answered, up to the decision about the namespace.
use kubeflow_profile_control.Prelude.{String, ◌≡◌}
use kubeflow_profile_control.Api.Meta.{NamespacedName, ObjectMeta, Namespace}
use kubeflow_profile_control.Api.Profile.{Profile}
use kubeflow_profile_control.Api.Config.{Config}
use kubeflow_profile_control.Cluster.{Env, State, Reply, found, ◌>>=◌}
use kubeflow_profile_control.Cluster.Keeps.{IsReferenceSetter}
use kubeflow_profile_control.Reconcile.{
  wanted_namespace, after_get_namespace, after_set_reference, ensure_namespace, after_namespace,
  after_get_config, after_get_profile, reconcile,
}

abbrev pub cluster_key : String → NamespacedName
cluster_key name = record { namespace = ""; name = name }

-- The profile and the config were read, the namespace's owner reference was set, and the read of
-- the namespace gave `r` and left the world `w`.
pub record Answers {World : Type 0} (env : Env World) (key : NamespacedName) (s : State World)
    (p : Profile) (config : Config) (m : ObjectMeta) (r : Reply Namespace) (w : World)
    : Type 0 where
  pub after_profile : World
  pub after_config : World
  pub profile_read : env.profiles.get key s.world ≡ (found p, after_profile)
  pub config_read :
      env.configs.get (cluster_key "config") after_profile ≡ (found config, after_config)
  pub reference_set : env.set_controller_reference p (wanted_namespace p config).meta ≡ found m
  pub namespace_read : env.namespaces.get (cluster_key p.meta.name) after_config ≡ (r, w)

module _ {World : Type 0} (env : Env World) (setter : IsReferenceSetter env) where
  pub reconcile-Answers :
      {key : NamespacedName} {s : State World} {p : Profile} {config : Config} {m : ObjectMeta}
      {r : Reply Namespace} {w : World}
      → Answers env key s p config m r w
      → reconcile env key s
        ≡ (after_get_namespace env p config (record (wanted_namespace p config) { meta = m }) r
              >>= after_namespace env p)
            (record { world = w; events = s.events })
  unfolding reconcile after_get_profile after_get_config ensure_namespace after_set_reference
  reconcile-Answers {key} {s} {p} {config} {m} {r} {w} a = rw a.profile_read (
      rw a.config_read
        (rw a.reference_set (rw (setter.keeps_name p _ m a.reference_set) (rw a.namespace_read))))
