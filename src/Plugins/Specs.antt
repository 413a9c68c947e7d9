-- ===== src/Plugins/Specs.antt =====
-- `GetPluginSpec` and `PatchDefaultPluginSpec` of controllers/kubeflow.org/profile_controller.go.
-- `github.com/goccy/go-yaml` is the parameter `YamlLib`.
pub mod Laws
pub mod Patched
use kubeflow_profile_control.Prelude.{
  String, Bool, true, false, not, ◌&&◌, Option, none, some, List, [], ◌∷◌, ◌++◌, ◌==◌, ◌⧺◌,
  if◌then◌else◌,
}
use kubeflow_profile_control.Prelude.Dict.{Dict, insert, has_key}
use kubeflow_profile_control.Api.Profile.{Plugin, Profile, ProfileSpec}
use kubeflow_profile_control.Cluster.{
  Env, Act, Object, Reply, found, failed, update, return_error, ◌>>=◌,
}
use kubeflow_profile_control.Plugins.Iam.{AwsIamForServiceAccount}
use kubeflow_profile_control.Plugins.WorkloadIdentity.{GcpWorkloadIdentity}

abbrev pub kind_workload_identity : String
kind_workload_identity = "WorkloadIdentity"

abbrev pub kind_aws_iam_for_service_account : String
kind_aws_iam_for_service_account = "AwsIamForServiceAccount"

-- The interface `Plugin`, by its two implementations.
pub data PluginInstance : Type 0 where
  workload_identity : GcpWorkloadIdentity → PluginInstance
  aws_iam_for_service_account : AwsIamForServiceAccount → PluginInstance

-- `yaml.Marshal` at a plugin's spec, and `yaml.Unmarshal` at the two plugins.
pub record YamlLib (Text : Type 0) : Type 0 where
  pub marshal : Option String → Reply Text
  pub unmarshal_workload_identity : Text → Reply GcpWorkloadIdentity
  pub unmarshal_aws_iam : Text → Reply AwsIamForServiceAccount

module _ {A B : Type 0} where
  abbrev pub then_read : Reply A → (A → Reply B) → Reply B
  then_read (failed e) f = failed e
  then_read (found a) f = f a

-- `plugins = append(plugins, pluginIns)`, and on with the loop.
abbrev pub add_plugin :
    Reply PluginInstance → Reply (List PluginInstance) → Reply (List PluginInstance)
add_plugin (failed e) rest = failed e
add_plugin (found plugin) (failed e) = failed e
add_plugin (found plugin) (found plugins) = found (plugin ∷ plugins)

module _ {Text : Type 0} (lib : YamlLib Text) where
  abbrev pub read_workload_identity : Option String → Reply PluginInstance
  read_workload_identity spec = then_read (lib.marshal spec) (λ bytes.
      then_read (lib.unmarshal_workload_identity bytes)
        (λ plugin. found (workload_identity plugin)))

  abbrev pub read_aws_iam : Option String → Reply PluginInstance
  read_aws_iam spec = then_read (lib.marshal spec) (λ bytes.
      then_read (lib.unmarshal_aws_iam bytes)
        (λ plugin. found (aws_iam_for_service_account plugin)))

  unfoldable pub get_plugin_spec : List Plugin → Reply (List PluginInstance)
  get_plugin_spec [] = found []
  get_plugin_spec (p ∷ ps) =
      let rest = get_plugin_spec ps in
      if p.kind == kind_workload_identity
      then add_plugin (read_workload_identity p.spec) rest
      else if p.kind == kind_aws_iam_for_service_account
      then add_plugin (read_aws_iam p.spec) rest
      else rest

-- `plugins[p.Kind] = p`, over the plugins
unfoldable pub plugins_by_kind : List Plugin → Dict Plugin → Dict Plugin
plugins_by_kind [] plugins = plugins
plugins_by_kind (p ∷ ps) plugins = plugins_by_kind ps (insert p.kind p plugins)

unfoldable pub default_workload_identity : String → Plugin
default_workload_identity wi = record {
  kind = kind_workload_identity;
  spec = some ("{\"gcpServiceAccount\": \"" ⧺ (wi ⧺ "\"}"));
}

-- The plugins with the default one, where the controller has a workload identity.
unfoldable pub patched_plugins : String → List Plugin → List Plugin
unfolding plugins_by_kind default_workload_identity
patched_plugins wi ps =
    if not (wi == "") && not (has_key kind_workload_identity (plugins_by_kind ps []))
    then ps ++ (default_workload_identity wi ∷ [])
    else ps

module _ {World : Type 0} (env : Env World) where
  unfoldable pub patch_default_plugin_spec : String → Profile → Act World (Unit {0})
  unfolding patched_plugins
  patch_default_plugin_spec wi profile = do
    e ← update env.profiles Object.profile (record profile {
      spec = record profile.spec { plugins = patched_plugins wi profile.spec.plugins };
    })
    return_error e
