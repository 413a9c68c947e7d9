-- ===== src/Tests/Counting.antt =====
-- Counters as the list of their increments, where missing labels panic; and what a run counts.
use kubeflow_profile_control.Prelude.{
  ℕ, suc, ◌+◌, ◌≤◌, String, ◌≡◌, refl, true, false, Bool, Bool-cases, none, some, List, [], ◌∷◌,
  ◌==◌, ◌&&◌, inl, inr, arith, eq_iff, if◌then◌else◌,
}
use kubeflow_profile_control.Prelude.Dict.{Dict, has_key, deep_equal, deep_equal_iff}
use kubeflow_profile_control.Slices.{contains_string}
use kubeflow_profile_control.Cluster.{severity_major, request, request_failure}
use kubeflow_profile_control.Startup.{Counter}
use kubeflow_profile_control.Metrics.{Prometheus, Move, handled, slept, run}
use kubeflow_profile_control.Metrics.Vectors.{Differ, IsPrometheus}
use kubeflow_profile_control.Metrics.Tally.{Adds, run-Adds}
use kubeflow_profile_control.Reconcile.{reconcile}
use kubeflow_profile_control.Reconcile.Counts.{counted, writes, reconcile_counts}
use kubeflow_profile_control.Tests.Server.{env, retries}
use kubeflow_profile_control.Tests.Reconciling.{key, fresh}

abbrev Registry : Type 0
Registry = List (String × Dict String)

has_all : List String → Dict String → Bool
unfolding has_key
has_all [] labels = true
has_all (k ∷ ks) labels = has_key k labels && has_all ks labels

is_counter : Counter → Dict String → String × Dict String → Bool
unfolding deep_equal
is_counter c labels (name, labels') = (name == c.name) && deep_equal labels' labels

value_of : Counter → Dict String → Registry → ℕ
unfolding is_counter
value_of c labels [] = 0
value_of c labels (i ∷ r) =
    let rest = value_of c labels r in if is_counter c labels i then suc rest else rest

abbrev prometheus : Prometheus Registry
unfolding has_all value_of
prometheus = record {
  inc = λ c labels r. if has_all c.labels labels then some ((c.name, labels) ∷ r) else none;
  value = value_of;
}

has_all_of_each :
    (ks : List String) (labels : Dict String)
    → ((k : String) → contains_string ks k ≡ true → has_key k labels ≡ true)
    → has_all ks labels ≡ true
unfolding has_all contains_string
has_all_of_each [] labels h = refl
has_all_of_each (k ∷ ks) labels h =
    let others = has_all_of_each ks labels λ j at. h j (ground arith) in
    ground (arith, h k, eq_iff k k)

is_counter_self : (c : Counter) (labels : Dict String) → is_counter c labels (c.name, labels) ≡ true
unfolding is_counter
is_counter_self c labels =
    ground (arith, eq_iff c.name c.name, (deep_equal_iff labels labels).1 λ k. refl)

is_counter_other :
    (c d : Counter) (labels labels' : Dict String)
    → Differ c labels d labels'
    → is_counter d labels' (c.name, labels) ≡ false
unfolding is_counter
is_counter_other c d labels labels' (inl ne) = ground (arith, eq_iff c.name d.name)
is_counter_other c d labels labels' (inr (k, ne)) = elim (Bool-cases (deep_equal labels labels')) [
  | inl same ↦ absurd (ne ((deep_equal_iff labels labels').0 same k))
  | inr other ↦ ground arith
]

laws : IsPrometheus prometheus
unfolding prometheus value_of
laws = record {
  accepts = λ c labels its r.
      let all = has_all_of_each c.labels labels λ k at. ground (arith, its k) in
      ((c.name, labels) ∷ r, ground arith);
  adds = λ c labels r r' e. ground (arith, is_counter_self c labels);
  leaves = λ c d labels labels' r r' e differ.
      ground (arith, is_counter_other c d labels labels' differ);
}

abbrev moves : List Move
moves =
    handled (request "reconcile")
    ∷ slept
    ∷ handled (request_failure "error reading namespace" severity_major)
    ∷ handled (request "reconcile")
    ∷ []

run-Adds_example :
    (r' : Registry) × (run prometheus moves [] ≡ some r') × Adds prometheus moves [] r'
run-Adds_example = run-Adds prometheus laws moves []

reconcile_counts_example :
    (counted (reconcile env key fresh).1.events ≡ 1 + counted fresh.events)
    × (writes (reconcile env key fresh).1.events ≤ 2 + writes fresh.events)
reconcile_counts_example = reconcile_counts env retries key fresh
