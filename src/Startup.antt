-- ===== src/Startup.antt =====
-- The start of the program: `init` and `main` of main.go, the `init` of
-- controllers/kubeflow.org/monitoring.go up to its heartbeat (which is in Metrics), and the
-- controller that `SetupWithManager` of controllers/kubeflow.org/profile_controller.go builds.
pub mod Scheme
pub mod Order
use kubeflow_profile_control.Prelude.{
  ℕ, String, Bool, false, Option, none, some, List, [], ◌∷◌, map,
}

-- The packages whose types `init` adds to the scheme.
pub data Package : Type 0 where
  client_go : Package
  kubeflow_v1 : Package
  kubeflow_v1beta1 : Package
  istio_security : Package
  istio_networking : Package
  istio_networking_v1alpha3 : Package
  ack_iam : Package
  kubeflow_v2alpha1 : Package
  platform_v1alpha1 : Package
  kf_pod_default : Package

-- A type of one of those packages.
pub record Kind : Type 0 where
  pub api_package : Package
  pub name : String

pub record Flags : Type 0 where
  pub metrics_addr : String
  pub probe_addr : String
  pub enable_leader_election : Bool
  pub workload_identity : String

abbrev pub default_flags : Flags
default_flags = record {
  metrics_addr = ":8080";
  probe_addr = ":8081";
  enable_leader_election = false;
  workload_identity = "";
}

pub record ManagerOptions : Type 0 where
  pub metrics_bind_address : String
  pub port : ℕ
  pub health_probe_bind_address : String
  pub leader_election : Bool
  pub leader_election_id : String

abbrev pub manager_options : Flags → ManagerOptions
manager_options flags = record {
  metrics_bind_address = flags.metrics_addr;
  port = 9443;
  health_probe_bind_address = flags.probe_addr;
  leader_election = flags.enable_leader_election;
  leader_election_id = "kubeflow-profile-controller";
}

-- The controller's settings: what it reconciles, what it owns, what else it watches, and the
-- identity that the reconciler holds.
pub record Controller : Type 0 where
  pub for_kind : Kind
  pub owns : List Kind
  pub watches : List Kind
  pub workload_identity : String

abbrev pub profile_controller : String → Controller
profile_controller workload_identity = record {
  for_kind = record { api_package = kubeflow_v2alpha1; name = "Profile" };
  owns =
      record { api_package = client_go; name = "Namespace" }
      ∷ record { api_package = istio_security; name = "AuthorizationPolicy" }
      ∷ record { api_package = client_go; name = "ServiceAccount" }
      ∷ record { api_package = client_go; name = "RoleBinding" }
      ∷ record { api_package = client_go; name = "ConfigMap" }
      ∷ record { api_package = istio_networking; name = "DestinationRule" }
      ∷ record { api_package = istio_networking_v1alpha3; name = "EnvoyFilter" }
      ∷ record { api_package = istio_security; name = "PeerAuthentication" }
      ∷ record { api_package = client_go; name = "Service" }
      ∷ [];
  watches = record { api_package = platform_v1alpha1; name = "Config" } ∷ [];
  workload_identity = workload_identity;
}

-- `prometheus.CounterOpts`, and the names of the counter's labels.
pub record Counter : Type 0 where
  pub name : String
  pub labels : List String

-- The labels' names and the counters of controllers/kubeflow.org/monitoring.go.
abbrev pub label_component : String
label_component = "component"

abbrev pub label_kind : String
label_kind = "kind"

abbrev pub label_severity : String
label_severity = "severity"

abbrev pub request_counter : Counter
request_counter = record { name = "request_kf"; labels = label_component ∷ label_kind ∷ [] }

abbrev pub request_error_counter : Counter
request_error_counter = record {
  name = "request_kf_failure";
  labels = label_component ∷ label_kind ∷ label_severity ∷ [];
}

abbrev pub service_heartbeat : Counter
service_heartbeat = record {
  name = "service_heartbeat";
  labels = label_component ∷ label_severity ∷ [];
}

-- In the order of its `init`.
abbrev pub counters : List Counter
counters = request_counter ∷ request_error_counter ∷ service_heartbeat ∷ []

-- What the program has the libraries do.
pub data Call : Type 0 where
  register_counter : Counter → Call
  add_to_scheme : Package → Call
  new_manager : ManagerOptions → Call
  complete : Controller → Call
  add_healthz_check : Call
  add_readyz_check : Call
  start : Call

pub data Ending : Type 0 where
  returned : Ending
  exited : ℕ → Ending
  panicked : Ending

-- The packages, in the order of `init`.
abbrev pub scheme_packages : List Package
scheme_packages =
    client_go ∷ kubeflow_v1 ∷ kubeflow_v1beta1 ∷ istio_security ∷ istio_networking
    ∷ istio_networking_v1alpha3 ∷ ack_iam ∷ kubeflow_v2alpha1 ∷ platform_v1alpha1 ∷ kf_pod_default
    ∷ []

-- The surroundings, and the calls so far, the latest first.
pub record Progress (World : Type 0) : Type 0 where
  pub world : World
  pub calls : List Call

-- `lib` is the libraries' side of a call: its error, if any, and the world after it. `flags` are
-- what `flag.Parse` leaves of the defaults and the command line.
module _ {World : Type 0} (lib : Call → World → Option String × World) where
  call : Call → Progress World → Option String × Progress World
  call c s = let (e, w) = lib c s.world in (e, record { world = w; calls = c ∷ s.calls })

  -- `utilruntime.Must` or `MustRegister`, for one call.
  after_must :
      Option String × Progress World
      → (Progress World → Ending × Progress World)
      → Ending × Progress World
  after_must (some e, s) rest = (panicked, s)
  after_must (none, s) rest = rest s

  -- An `init` of such calls, and what comes behind it.
  unfoldable pub init :
      List Call
      → (Progress World → Ending × Progress World)
      → Progress World
      → Ending × Progress World
  unfolding call after_must
  init [] rest s = rest s
  init (c ∷ cs) rest s = after_must (call c s) (init cs rest)

  -- `if err != nil { …; os.Exit(1) }`
  or_exit :
      Option String × Progress World
      → (Progress World → Ending × Progress World)
      → Ending × Progress World
  or_exit (some e, s) rest = (exited 1, s)
  or_exit (none, s) rest = rest s

  started : Option String × Progress World → Ending × Progress World
  unfolding or_exit
  started r = or_exit r (λ s. (returned, s))

  unfoldable pub main : Flags → Progress World → Ending × Progress World
  unfolding call or_exit started
  main flags s = or_exit (call (new_manager (manager_options flags)) s) λ s.
      or_exit (call (complete (profile_controller flags.workload_identity)) s) λ s.
        or_exit (call add_healthz_check s)
          λ s. or_exit (call add_readyz_check s) λ s. started (call start s)

  -- The `init` of an imported package comes before the program's own.
  unfoldable pub program : Flags → Progress World → Ending × Progress World
  unfolding init main
  program flags s =
      init (map register_counter counters) (init (map add_to_scheme scheme_packages) (main flags)) s
