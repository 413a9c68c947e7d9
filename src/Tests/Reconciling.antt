-- ===== src/Tests/Reconciling.antt =====
-- `reconcile` at the profile of a server.
use kubeflow_profile_control.Prelude.{String, ◌⧺◌, ◌≡◌, ◌≢◌, refl, true, some, List, [], ◌∷◌, All}
use kubeflow_profile_control.Prelude.Dict.{lookup, HasDistinctKeys}
use kubeflow_profile_control.Api.Meta.{Namespace, ObjectMeta, NamespacedName, zero_meta}
use kubeflow_profile_control.Api.Profile.{Profile}
use kubeflow_profile_control.Slices.{contains_string}
use kubeflow_profile_control.Labels.{made}
use kubeflow_profile_control.Cluster.{
  State, ok, Object, Event, create_object, update_object, request, truncate_tag, found,
}
use kubeflow_profile_control.Reconcile.{
  owner_annotation, profile_finalizer, with_finalizer, annotation, wanted_namespace, reconcile,
}
use kubeflow_profile_control.Reconcile.Reads.{Answers, cluster_key}
use kubeflow_profile_control.Reconcile.Writes.{IsPermitted, reconcile_writes}
use kubeflow_profile_control.Reconcile.Takeover.{takeover_refused}
use kubeflow_profile_control.Reconcile.Finalizer.{finalized}
use kubeflow_profile_control.Reconcile.Creates.{
  created, Creates, Holds, reconcile-Creates, reconcile_converges,
}
use kubeflow_profile_control.Reconcile.Ends.{IsAccounted, reconcile-IsAccounted}
use kubeflow_profile_control.Tests.Server.{
  not_found, Server, server, env, setter, retries, alice, config,
}

abbrev pub key : NamespacedName
key = cluster_key "alice-ns"

abbrev pub fresh : State (Server String)
fresh = record { world = server ""; events = [] }

reconcile_writes_example : All (IsPermitted alice) (reconcile env key fresh).1.events
reconcile_writes_example = reconcile_writes env setter retries key alice fresh refl refl

reconcile-IsAccounted_example :
    IsAccounted (reconcile env key fresh).0 (reconcile env key fresh).1.events
reconcile-IsAccounted_example = reconcile-IsAccounted env retries key fresh config refl

-- A namespace of that name, of nobody.
abbrev pub empty_namespace : Namespace
empty_namespace = record { meta = record zero_meta { name = "alice-ns" }; phase = "" }

abbrev pub holding : Profile → Namespace → State (Server String)
holding p ns = record {
  world = record (server "") { profile = some p; namespace = some ns };
  events = [];
}

abbrev pub reference_to : Profile → ObjectMeta
reference_to p = record (wanted_namespace p config).meta {
  owner_references =
      record {
        api_version = "kubeflow.org/v2alpha1";
        kind = "Profile";
        name = p.meta.name;
        uid = p.meta.uid;
        controller = true;
      }
      ∷ (wanted_namespace p config).meta.owner_references;
}

pub answers :
    (p : Profile) (ns : Namespace)
    → Answers env
        (cluster_key p.meta.name)
        (holding p ns)
        p
        config
        (reference_to p)
        (found ns)
        (holding p ns).world
answers p ns = record {
  after_profile = (holding p ns).world;
  after_config = (holding p ns).world;
  profile_read = refl;
  config_read = refl;
  reference_set = refl;
  namespace_read = refl;
}

nobodys : annotation owner_annotation empty_namespace ≢ some "alice"
unfolding annotation lookup
nobodys e = cc

abbrev refused : Profile
refused = record alice {
  status = record {
    conditions =
        record {
          type = "Failed";
          status = "";
          message = "namespace already exist, but not owned by profile creator " ⧺ "alice";
        }
        ∷ [];
  };
}

takeover_refused_example : reconcile env key (holding alice empty_namespace) ≡ (
  ok tt,
  record {
    world = record (holding alice empty_namespace).world { profile = some refused };
    events =
        update_object (Object.profile refused)
        ∷ request (truncate_tag "reject profile taking over existing namespace")
        ∷ [];
  },
)
takeover_refused_example =
    takeover_refused env setter key (holding alice empty_namespace) alice config
      (reference_to alice) empty_namespace (holding alice empty_namespace).world
      (answers alice empty_namespace) nobodys

pub distinct : HasDistinctKeys (made config.spec.namespace.default_labels)
unfolding lookup
distinct = (refl, tt)

-- Alice's profile, with the finalizer on it.
abbrev pub kept : Profile
kept = record alice { meta = record alice.meta { finalizers = profile_finalizer ∷ [] } }

-- The server after the run that creates Alice's namespace.
abbrev made_namespace : Namespace
made_namespace = created alice config (reference_to alice)

abbrev with_namespace : Server String
with_namespace = record (server "") { namespace = some made_namespace }

abbrev with_both : Server String
with_both = record with_namespace { profile = some (finalized alice) }

creates : Creates env key fresh alice config (reference_to alice) with_both
unfolding contains_string
creates = record {
  missing = not_found;
  before = server "";
  after_creation = with_namespace;
  after_read = with_namespace;
  visible = made_namespace;
  answers = record {
    after_profile = server "";
    after_config = server "";
    profile_read = refl;
    config_read = refl;
    reference_set = refl;
    namespace_read = refl;
  };
  not_found = refl;
  creation = refl;
  read_again = refl;
  live = refl;
  unfinalized = refl;
  finalization = refl;
}

abbrev first_events : List Event
first_events =
    request (truncate_tag "reconcile")
    ∷ update_object (Object.profile (finalized alice))
    ∷ create_object (Object.namespace made_namespace)
    ∷ []

then-Answers :
    Answers env key
      (record { world = with_both; events = first_events })
      (finalized alice)
      config
      (reference_to (finalized alice))
      (found made_namespace)
      with_both
unfolding with_finalizer contains_string
then-Answers = record {
  after_profile = with_both;
  after_config = with_both;
  profile_read = refl;
  config_read = refl;
  reference_set = refl;
  namespace_read = refl;
}

next-Answers :
    Answers env key
      (reconcile env key fresh).1
      (finalized alice)
      config
      (reference_to (finalized alice))
      (found made_namespace)
      with_both
next-Answers =
    rw
      (reconcile-Creates env setter retries key fresh alice config (reference_to alice) with_both
        creates)
      then-Answers

holds : Holds alice config (reference_to alice) (finalized alice) made_namespace
unfolding with_finalizer contains_string
holds = record {
  labels = refl;
  annotations = refl;
  spec = refl;
  finalizers = refl;
  deletion = refl;
}

reconcile_converges_example : reconcile env key (reconcile env key fresh).1 ≡ (
  ok tt,
  record { world = with_both; events = request (truncate_tag "reconcile") ∷ first_events },
)
reconcile_converges_example =
    reconcile_converges env setter retries key fresh alice config (reference_to alice) with_both
      (finalized alice) (reference_to (finalized alice)) made_namespace with_both creates holds
      next-Answers distinct
