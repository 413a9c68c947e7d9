-- ===== src/Slices.antt =====
-- `containsString` and `removeString` of controllers/kubeflow.org/profile_controller.go.
pub mod Laws
use kubeflow_profile_control.Prelude.{String, Bool, true, false, List, [], ◌∷◌, ◌==◌, if◌then◌else◌}

-- The loop returns at the first hit.
unfoldable pub contains_string : List String → String → Bool
contains_string [] s = false
contains_string (item ∷ slice) s = if item == s then true else contains_string slice s

unfoldable pub remove_string : List String → String → List String
remove_string [] s = []
remove_string (item ∷ slice) s =
    let rest = remove_string slice s in if item == s then rest else item ∷ rest
