-- ===== src/System/Replicas.antt =====
-- Several copies of the controller at one API server.
use kubeflow_profile_control.Prelude.{String, ◌≡◌, ◌⊎◌, inl, inr, some}
use kubeflow_profile_control.Api.Profile.{Profile}
use kubeflow_profile_control.Cluster.{Env}
use kubeflow_profile_control.Cluster.Keeps.{IsReferenceSetter, IsRetry}
use kubeflow_profile_control.System.{View, IsApiServer, Step}
use kubeflow_profile_control.System.Ownership.{owner_of, Run, run_keeps_owner, step_keeps_owner}

-- The other writers as one copy of the controller sees them: those that are no controller, and the
-- other copies, at whatever profiles, whose runs are made of the steps of System.
abbrev pub among_replicas : {World : Type 0} → View World → View World
among_replicas view = record view {
  Others = λ w w'. view.Others w w' ⊎ ((q : Profile) × Step view q w w');
}

module _ {World : Type 0} (env : Env World) (view : View World)
    (server : IsApiServer (among_replicas view) env) (name owner : String)
    (others_keep : (u v : World)
      → view.Others u v
      → owner_of (view.namespace_at u name) ≡ some owner
      → owner_of (view.namespace_at v name) ≡ some owner) where
  -- If the writers that are no controller leave the owner of a namespace as it is, then the
  -- `owner` annotation of that namespace, once it is there, is the same for ever after: no
  -- sequence of runs of `reconcile`, for whichever profiles and in whichever order, while other
  -- copies of the controller take steps for any profiles between any two of its calls, and however
  -- the calls of a run fail, gives the namespace to somebody else.
  pub owner_for_ever :
      IsReferenceSetter env
      → IsRetry env
      → (w w' : World) → Run env (among_replicas view) w w'
      → owner_of (view.namespace_at w name) ≡ some owner
      → owner_of (view.namespace_at w' name) ≡ some owner
  owner_for_ever setter retry =
      run_keeps_owner env (among_replicas view) server name owner
        (λ u v o h. elim o [
          | inl step ↦ others_keep u v step h
          | inr (q, step) ↦
              step_keeps_owner env view name owner others_keep
                (λ p x y saved. server.saves_profile_only p x y name saved) step h
        ])
        setter retry
