-- ===== src/Tests/Labelling.antt =====
-- The labels of a namespace at small values.
use kubeflow_profile_control.Prelude.{String, ◌≡◌, refl, List, [], ◌∷◌}
use kubeflow_profile_control.Prelude.Dict.{lookup, HasDistinctKeys}
use kubeflow_profile_control.Labels.{set_labels}
use kubeflow_profile_control.Labels.Merge.{merge, lookup-set_labels}

abbrev one_label : List (String × String)
one_label = ("team", "ml") ∷ []

one_label-HasDistinctKeys : HasDistinctKeys one_label
unfolding lookup
one_label-HasDistinctKeys = (refl, tt)

lookup-set_labels_example :
    lookup "team" (set_labels (("team", "a") ∷ []) (("team", "ml") ∷ []))
    ≡ merge (lookup "team" (("team", "a") ∷ [])) (lookup "team" (("team", "ml") ∷ []))
lookup-set_labels_example =
    lookup-set_labels (("team", "a") ∷ []) (("team", "ml") ∷ []) "team" one_label-HasDistinctKeys
