-- ===== src/Metrics.antt =====
-- controllers/kubeflow.org/monitoring.go on the counters themselves: what the counters that the
-- controller's events name do to prometheus's vectors, and the goroutine of `init` that counts
-- heartbeats beside it. The vectors are prometheus's: they are a parameter.
pub mod Vectors
pub mod Tally
use kubeflow_profile_control.Prelude.{ℕ, String, Option, none, some, List, [], ◌∷◌}
use kubeflow_profile_control.Prelude.Dict.{Dict}
use kubeflow_profile_control.Cluster.{Event, request, request_failure}
use kubeflow_profile_control.Startup.{
  Counter, label_component, label_kind, label_severity, request_counter, request_error_counter,
  service_heartbeat,
}

-- `inc` is `vector.With(labels).Inc()`, which is atomic, and gives nothing where `With` panics;
-- `value` is what a scrape reads of the vector under those labels, 0 if it never was incremented.
pub record Prometheus (Registry : Type 0) : Type 0 where
  pub inc : Counter → Dict String → Registry → Option Registry
  pub value : Counter → Dict String → Registry → ℕ

abbrev pub profile : String
profile = "profile_controller"

abbrev pub severity_critical : String
severity_critical = "critical"

-- The `labels` of IncRequestCounter, of IncRequestErrorCounter and of the goroutine.
abbrev pub request_labels : String → Dict String
request_labels kind = (label_component, profile) ∷ (label_kind, kind) ∷ []

abbrev pub error_labels : String → String → Dict String
error_labels kind severity =
    (label_component, profile) ∷ (label_kind, kind) ∷ (label_severity, severity) ∷ []

abbrev pub heartbeat_labels : Dict String
heartbeat_labels = (label_component, profile) ∷ (label_severity, severity_critical) ∷ []

-- What the two goroutines do that a scrape can see, one after the other in any order: the
-- controller has an event, or the heartbeat's `time.Sleep` ends.
pub data Move : Type 0 where
  handled : Event → Move
  slept : Move

module _ {Registry : Type 0} (prometheus : Prometheus Registry) where
  -- The kind of an event is the one that is cut already.
  unfoldable pub count_event : Event → Registry → Option Registry
  count_event (request kind) = prometheus.inc request_counter (request_labels kind)
  count_event (request_failure kind severity) =
      prometheus.inc request_error_counter (error_labels kind severity)
  count_event _ = some

  -- A round of the goroutine's loop.
  unfoldable pub beat : Registry → Option Registry
  beat = prometheus.inc service_heartbeat heartbeat_labels

  unfoldable pub move : Move → Registry → Option Registry
  unfolding count_event beat
  move (handled event) = count_event event
  move slept = beat

  -- A panic ends the program.
  unfoldable pub run : List Move → Registry → Option Registry
  unfolding move
  run [] r = some r
  run (m ∷ moves) r = elim (move m r) [ none ↦ none | some r' ↦ run moves r' ]
