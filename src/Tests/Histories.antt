-- ===== src/Tests/Histories.antt =====
-- Histories of a server that keeps a log of namespaces, with alice's profile.
use kubeflow_profile_control.Prelude.{String, ◌≡◌, ◌≢◌, refl, ap, ◌∙◌, some, [], ◌∷◌, inr}
use kubeflow_profile_control.Api.Meta.{NamespacedName, Namespace, zero_meta}
use kubeflow_profile_control.Prelude.Dict.{lookup}
use kubeflow_profile_control.Cluster.{State}
use kubeflow_profile_control.Reconcile.{owner_annotation, annotation, reconcile}
use kubeflow_profile_control.Reconcile.Refines.Runs.{reconcile_refines}
use kubeflow_profile_control.System.{Many, Step}
use kubeflow_profile_control.System.Ownership.{reconcile_leaves}
use kubeflow_profile_control.Tests.Server.{alice, config}
use kubeflow_profile_control.Tests.Reconciling.{distinct}
use kubeflow_profile_control.Tests.Log.{Store, Configuration, namespace_at}
use kubeflow_profile_control.Tests.Store.{view, env, api_server, setter, retries}

abbrev pub key : NamespacedName
key = record { namespace = ""; name = "alice-ns" }

abbrev namespace_of : String → Namespace
namespace_of owner = record {
  meta = record zero_meta {
    name = "alice-ns";
    resource_version = "v";
    annotations = some ((owner_annotation, owner) ∷ []);
  };
  phase = "Active";
}

abbrev pub configuration : Configuration
configuration = record { config = config; distinct = distinct }

-- The namespace of alice's profile is there already, with an owner.
abbrev pub owned_by : String → Store
owned_by owner = record {
  profile = some alice;
  configuration = some configuration;
  log = namespace_of owner ∷ [];
}

abbrev first : String → State Store
first owner = record { world = owned_by owner; events = [] }

reconcile_refines_example :
    Many (Step view alice) (owned_by "alice") (reconcile env key (first "alice")).1.world
reconcile_refines_example =
    reconcile_refines env view api_server setter retries key alice (first "alice") refl

others_leave :
    (u v : Store)
    → view.Others u v
    → namespace_at u "alice-ns" ≡ some (namespace_of "bob")
    → namespace_at v "alice-ns" ≡ some (namespace_of "bob")
others_leave u v o h = ap (λ x. namespace_at x "alice-ns") o.1 ∙ h

bobs : annotation owner_annotation (namespace_of "bob") ≢ some "alice"
unfolding annotation lookup
bobs e = cc

reconcile_leaves_example :
    namespace_at (reconcile env key (first "bob")).1.world "alice-ns" ≡ some (namespace_of "bob")
reconcile_leaves_example =
    reconcile_leaves env view api_server alice "alice-ns" (namespace_of "bob") others_leave
      (inr bobs) setter retries key (first "bob") refl refl
