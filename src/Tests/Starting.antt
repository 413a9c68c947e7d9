-- ===== src/Tests/Starting.antt =====
-- Starts of the program, and the labels of counters.
use Prim.Native.String.{len}
use text.Mathlib.TextBridge.{IsPrefix}
use kubeflow_profile_control.Prelude.{
  ◌≡◌, ◌⊎◌, ◌≤◌, ◌<◌, refl, Bool, true, Option, none, some, String, List, [], ◌∷◌,
}
use kubeflow_profile_control.Cluster.{truncate_tag}
use kubeflow_profile_control.Cluster.Tags.{truncate_tag-bounds}
use kubeflow_profile_control.Startup.{
  default_flags, Call, add_readyz_check, exited, Progress, program,
}

-- The world counts the calls; the check of readiness cannot be added.
abbrev no_readyz : Call → List Bool → Option String × List Bool
no_readyz add_readyz_check w = (some "no such check", true ∷ w)
no_readyz _ w = (none, true ∷ w)

abbrev fresh : Progress (List Bool)
fresh = record { world = []; calls = [] }

exits : (program no_readyz default_flags fresh).0 ≡ exited 1
unfolding program
exits = refl

truncate_tag-bounds_example :
    ((len "reject profile taking over existing namespace" ≤ 30)
      × (truncate_tag "reject profile taking over existing namespace"
          ≡ "reject profile taking over existing namespace"))
    ⊎ ((30 < len "reject profile taking over existing namespace")
        × (len (truncate_tag "reject profile taking over existing namespace") ≡ 30)
        × IsPrefix
            (truncate_tag "reject profile taking over existing namespace")
            "reject profile taking over existing namespace")
truncate_tag-bounds_example =
    truncate_tag-bounds "reject profile taking over existing namespace" refl
