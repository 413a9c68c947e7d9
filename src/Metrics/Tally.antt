-- ===== src/Metrics/Tally.antt =====
-- The counters and a tally of what the controller and its heartbeat did.
use kubeflow_profile_control.Prelude.{
  ℕ, ◌+◌, false, Bool-cases, String, ◌≡◌, inl, inr, refl, some, List, [], ◌∷◌, ◌==◌, arith, eq_iff,
  if◌then◌else◌,
}
use kubeflow_profile_control.Prelude.Dict.{Dict}
use kubeflow_profile_control.Cluster.{
  create_object, update_object, apply_object, request, request_failure,
}
use kubeflow_profile_control.Startup.{
  Counter, request_counter, request_error_counter, service_heartbeat,
}
use kubeflow_profile_control.Metrics.{
  Prometheus, request_labels, error_labels, heartbeat_labels, Move, handled, slept, count_event,
  beat, move, run,
}
use kubeflow_profile_control.Metrics.Vectors.{
  IsPrometheus, request_labels-HasItsLabels, error_labels-HasItsLabels,
  heartbeat_labels-HasItsLabels, texts_differ, kinds-Differ, failures-Differ,
}

-- How often the moves count a request of a kind, a failure of a kind with a severity, a heartbeat.
abbrev requests_in : String → Move → ℕ
requests_in kind (handled (request k)) = if k == kind then 1 else 0
requests_in kind _ = 0

abbrev failures_in : String → String → Move → ℕ
failures_in kind severity (handled (request_failure k s)) =
    if k == kind then (if s == severity then 1 else 0) else 0
failures_in kind severity _ = 0

abbrev beats_in : Move → ℕ
beats_in slept = 1
beats_in _ = 0

abbrev pub total : (Move → ℕ) → List Move → ℕ
total count [] = 0
total count (m ∷ moves) = count m + total count moves

abbrev pub requests : String → List Move → ℕ
requests kind = total (requests_in kind)

abbrev pub failures : String → String → List Move → ℕ
failures kind severity = total (failures_in kind severity)

abbrev pub beats : List Move → ℕ
beats = total beats_in

module _ {Registry : Type 0} (prometheus : Prometheus Registry) where
  -- What moves change in the counters that the controller has.
  pub record Adds (moves : List Move) (r r' : Registry) : Type 0 where
    pub requests :
        (kind : String)
        → prometheus.value request_counter (request_labels kind) r'
          ≡ requests kind moves + prometheus.value request_counter (request_labels kind) r
    pub failures :
        (kind severity : String)
        → prometheus.value request_error_counter (error_labels kind severity) r'
          ≡ failures kind severity moves
            + prometheus.value request_error_counter (error_labels kind severity) r
    pub heartbeats :
        prometheus.value service_heartbeat heartbeat_labels r'
        ≡ beats moves + prometheus.value service_heartbeat heartbeat_labels r

  module _ (laws : IsPrometheus prometheus) where
    other_vector :
        (c d : Counter) (labels labels' : Dict String) (r r' : Registry)
        → prometheus.inc c labels r ≡ some r'
        → (c.name == d.name) ≡ false
        → prometheus.value d labels' r' ≡ 0 + prometheus.value d labels' r
    other_vector c d labels labels' r r' e other =
        grind
          (arith, laws.leaves c d labels labels' r r' e (inl (texts_differ c.name d.name other)))

    requests-inc :
        (k kind : String) (r r' : Registry)
        → prometheus.inc request_counter (request_labels k) r ≡ some r'
        → prometheus.value request_counter (request_labels kind) r'
          ≡ (if k == kind then 1 else 0) + prometheus.value request_counter (request_labels kind) r
    requests-inc k kind r r' e = elim (Bool-cases (k == kind)) [
      | inl same ↦
          let same' = (eq_iff k kind).0 same in
          grind (arith, laws.adds request_counter (request_labels k) r r' e)
      | inr other ↦
          grind
            (arith, laws.leaves _ _ _ _ r r' e (kinds-Differ k kind (texts_differ k kind other)))
    ]

    failures-inc :
        (k kind s severity : String) (r r' : Registry)
        → prometheus.inc request_error_counter (error_labels k s) r ≡ some r'
        → prometheus.value request_error_counter (error_labels kind severity) r'
          ≡ (if k == kind then (if s == severity then 1 else 0) else 0)
            + prometheus.value request_error_counter (error_labels kind severity) r
    failures-inc k kind s severity r r' e = elim (Bool-cases (k == kind)) [
      | inl same ↦ elim (Bool-cases (s == severity)) [
        | inl same_severity ↦
            let same' = (eq_iff k kind).0 same in
            let same_severity' = (eq_iff s severity).0 same_severity in
            grind (arith, laws.adds request_error_counter (error_labels k s) r r' e)
        | inr other ↦ grind (
          arith,
          laws.leaves _ _ _ _ r r' e
              (failures-Differ k kind s severity (inr (texts_differ s severity other))),
        )
      ]
      | inr other ↦ grind (
        arith,
        laws.leaves _ _ _ _ r r' e
            (failures-Differ k kind s severity (inl (texts_differ k kind other))),
      )
    ]

    Adds-nothing :
        (moves : List Move)
        → ((kind : String) → requests kind moves ≡ 0)
        → ((kind severity : String) → failures kind severity moves ≡ 0)
        → beats moves ≡ 0
        → (r : Registry) → Adds moves r r
    Adds-nothing moves no_request no_failure no_beat r = record {
      requests = λ kind. rw (no_request kind) (omega arith);
      failures = λ kind severity. rw (no_failure kind severity) (omega arith);
      heartbeats = rw no_beat (omega arith);
    }

    Adds-move :
        (m : Move) (r : Registry)
        → (r' : Registry) × (move prometheus m r ≡ some r') × Adds (m ∷ []) r r'
    unfolding move count_event beat
    Adds-move slept r =
        let (r', e) =
          laws.accepts service_heartbeat heartbeat_labels heartbeat_labels-HasItsLabels r in
        (
          r',
          e,
          record {
            requests = λ kind. other_vector _ _ _ _ r r' e refl;
            failures = λ kind severity. other_vector _ _ _ _ r r' e refl;
            heartbeats = grind (arith, laws.adds _ _ r r' e);
          },
        )
    Adds-move (handled (request k)) r =
        let (r', e) =
          laws.accepts request_counter (request_labels k) (request_labels-HasItsLabels k) r in
        (
          r',
          e,
          record {
            requests = λ kind. grind (arith, requests-inc k kind r r' e);
            failures = λ kind severity. other_vector _ _ _ _ r r' e refl;
            heartbeats = other_vector _ _ _ _ r r' e refl;
          },
        )
    Adds-move (handled (request_failure k s)) r =
        let (r', e) =
          laws.accepts request_error_counter (error_labels k s) (error_labels-HasItsLabels k s) r in
        (
          r',
          e,
          record {
            requests = λ kind. other_vector _ _ _ _ r r' e refl;
            failures = λ kind severity. grind (arith, failures-inc k kind s severity r r' e);
            heartbeats = other_vector _ _ _ _ r r' e refl;
          },
        )
    Adds-move (handled (create_object o)) r =
        (r, refl, Adds-nothing _ (λ _. refl) (λ _ _. refl) refl r)
    Adds-move (handled (update_object o)) r =
        (r, refl, Adds-nothing _ (λ _. refl) (λ _ _. refl) refl r)
    Adds-move (handled (apply_object o)) r =
        (r, refl, Adds-nothing _ (λ _. refl) (λ _ _. refl) refl r)

    -- If `With` panics on other labels than the declared ones only, and `Inc` adds 1 to its counter
    -- and changes no other, then, in whatever order events and heartbeats come, no increment panics,
    -- and in the end the counter of the requests of each kind has grown by the number of those
    -- requests, that of the failures of each kind and severity by the number of those failures, and
    -- that of the heartbeats by the number of rounds of their goroutine.
    pub run-Adds :
        (moves : List Move) (r : Registry)
        → (r' : Registry) × (run prometheus moves r ≡ some r') × Adds moves r r'
    unfolding run
    run-Adds [] r = (r, refl, Adds-nothing _ (λ _. refl) (λ _ _. refl) refl r)
    run-Adds (m ∷ moves) r =
        let (r₁, e, first) = Adds-move m r in
        let (r₂, e', others) = run-Adds moves r₁ in
        (
          r₂,
          ground arith,
          record {
            requests = λ kind. grind (arith, first.requests kind, others.requests kind);
            failures = λ kind severity.
                grind (arith, first.failures kind severity, others.failures kind severity);
            heartbeats = grind (arith, first.heartbeats, others.heartbeats);
          },
        )
