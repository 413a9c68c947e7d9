-- ===== src/Metrics/Vectors.antt =====
-- What the controller relies on of prometheus's vectors, and the labels that it gives them.
use kubeflow_profile_control.Prelude.{
  suc, false, String, ◌≡◌, ◌≢◌, ◌⊎◌, inl, inr, some, ◌==◌, arith, eq_iff,
}
use kubeflow_profile_control.Prelude.Dict.{Dict, lookup, has_key}
use kubeflow_profile_control.Slices.{contains_string}
use kubeflow_profile_control.Startup.{
  Counter, request_counter, request_error_counter, service_heartbeat,
}
use kubeflow_profile_control.Metrics.{Prometheus, request_labels, error_labels, heartbeat_labels}

-- Labels under the names that the vector declares, and no other.
abbrev pub HasItsLabels : Counter → Dict String → Type 0
HasItsLabels c labels = (k : String) → has_key k labels ≡ contains_string c.labels k

-- Two counters of vectors: the vectors or the labels differ.
abbrev pub Differ : Counter → Dict String → Counter → Dict String → Type 0
Differ c labels d labels' =
    (c.name ≢ d.name) ⊎ ((k : String) × (lookup k labels ≢ lookup k labels'))

-- `With` panics only on other labels than the vector declares, and `Inc` adds 1 to that counter
-- and changes no other.
pub record IsPrometheus {Registry : Type 0} (prometheus : Prometheus Registry) : Type 0 where
  pub accepts :
      (c : Counter) (labels : Dict String)
      → HasItsLabels c labels
      → (r : Registry) → (r' : Registry) × (prometheus.inc c labels r ≡ some r')
  pub adds :
      (c : Counter) (labels : Dict String) (r r' : Registry)
      → prometheus.inc c labels r ≡ some r'
      → prometheus.value c labels r' ≡ suc (prometheus.value c labels r)
  pub leaves :
      (c d : Counter) (labels labels' : Dict String) (r r' : Registry)
      → prometheus.inc c labels r ≡ some r'
      → Differ c labels d labels'
      → prometheus.value d labels' r' ≡ prometheus.value d labels' r

pub request_labels-HasItsLabels :
    (kind : String) → HasItsLabels request_counter (request_labels kind)
unfolding has_key lookup contains_string
request_labels-HasItsLabels kind k = ground arith

pub error_labels-HasItsLabels :
    (kind severity : String) → HasItsLabels request_error_counter (error_labels kind severity)
unfolding has_key lookup contains_string
error_labels-HasItsLabels kind severity k = ground arith

pub heartbeat_labels-HasItsLabels : HasItsLabels service_heartbeat heartbeat_labels
unfolding has_key lookup contains_string
heartbeat_labels-HasItsLabels k = ground arith

pub texts_differ : (s t : String) → (s == t) ≡ false → s ≢ t
texts_differ s t h e = ground (arith, eq_iff s t)

pub kinds-Differ :
    (k kind : String)
    → k ≢ kind
    → Differ request_counter (request_labels k) request_counter (request_labels kind)
unfolding lookup
kinds-Differ k kind ne = inr ("kind", λ e. ne cc)

pub failures-Differ :
    (k kind s severity : String)
    → (k ≢ kind) ⊎ (s ≢ severity)
    → Differ request_error_counter
        (error_labels k s)
        request_error_counter
        (error_labels kind severity)
unfolding lookup
failures-Differ k kind s severity (inl ne) = inr ("kind", λ e. ne cc)
failures-Differ k kind s severity (inr ne) = inr ("severity", λ e. ne cc)
