-- ===== src/Plugins/Specs/Patched.antt =====
-- `PatchDefaultPluginSpec` on a profile, and on the profile that it wrote.
use kubeflow_profile_control.Prelude.{
  String, ◌≡◌, sym, ap, ◌∙◌, not, ◌&&◌, List, [], ◌∷◌, ◌++◌, ◌==◌, if◌then◌else◌, arith,
}
use kubeflow_profile_control.Api.Profile.{Plugin, Profile}
use kubeflow_profile_control.Cluster.{Env, State, Object, update_object}
use kubeflow_profile_control.Reconcile.Takeover.{ended}
use kubeflow_profile_control.Plugins.Specs.{
  default_workload_identity, patched_plugins, patch_default_plugin_spec,
}
use kubeflow_profile_control.Plugins.Specs.Laws.{
  has_workload_identity, patched_plugins-cases, patched_plugins_settled,
}

-- The user's plugins, and behind them the default one if the controller has a workload identity and
-- the user has no plugin of that kind.
abbrev pub with_default : String → List Plugin → List Plugin
with_default wi ps =
    if not (wi == "") && not (has_workload_identity ps)
    then ps ++ (default_workload_identity wi ∷ [])
    else ps

abbrev pub with_plugins : Profile → List Plugin → Profile
with_plugins profile plugins = record profile { spec = record profile.spec { plugins = plugins } }

patched_plugins-with_default :
    (wi : String) (ps : List Plugin) → patched_plugins wi (with_default wi ps) ≡ with_default wi ps
patched_plugins-with_default wi ps =
    ap (patched_plugins wi) (sym (patched_plugins-cases wi ps))
    ∙ patched_plugins_settled wi ps
    ∙ patched_plugins-cases wi ps

module _ {World : Type 0} (env : Env World) where
  patch_default_plugin_spec-writes :
      (wi : String) (profile : Profile) (plugins : List Plugin) (s : State World)
      → patched_plugins wi profile.spec.plugins ≡ plugins
      → let patched = with_plugins profile plugins in
        let (e, w) = env.profiles.update patched s.world in
        patch_default_plugin_spec env wi profile s ≡ (
          ended e,
          record { world = w; events = update_object (Object.profile patched) ∷ s.events },
        )
  unfolding patch_default_plugin_spec
  patch_default_plugin_spec-writes wi profile plugins s same = rw same (ground arith)

  -- `PatchDefaultPluginSpec` writes the profile once, with the user's plugins as they are and, if
  -- the controller has a workload identity and no plugin of the user's is of that kind, the
  -- default plugin behind them; and on the profile that it wrote it writes that profile again,
  -- with nothing added. Both end with the error of their write, if any.
  pub patch_default_plugin_spec-patches :
      (wi : String) (profile : Profile) (s t : State World)
      → let patched = with_plugins profile (with_default wi profile.spec.plugins) in
        let (e, w) = env.profiles.update patched s.world in
        let (e', w') = env.profiles.update patched t.world in
        (patch_default_plugin_spec env wi profile s ≡ (
          ended e,
          record { world = w; events = update_object (Object.profile patched) ∷ s.events },
        ))
        × (patch_default_plugin_spec env wi patched t ≡ (
          ended e',
          record { world = w'; events = update_object (Object.profile patched) ∷ t.events },
        ))
  patch_default_plugin_spec-patches wi profile s t =
      let ps = profile.spec.plugins in
      (
        patch_default_plugin_spec-writes wi profile (with_default wi ps) s
            (patched_plugins-cases wi ps),
        patch_default_plugin_spec-writes wi (with_plugins profile (with_default wi ps))
            (with_default wi ps) t (patched_plugins-with_default wi ps),
      )
