-- ===== src/Labels.antt =====
-- `setNamespaceLabels` of controllers/kubeflow.org/profile_controller.go.
pub mod Merge
pub mod File
use Prim.Native.String.{len}
use kubeflow_profile_control.Prelude.{
  String, Option, none, some, List, [], ◌∷◌, ◌=?◌, if◌then◌else◌,
}
use kubeflow_profile_control.Prelude.Dict.{Dict, has_key, insert, delete}
use kubeflow_profile_control.Api.Meta.{ObjectMeta, Namespace}

-- The body of the loop, for one key and its new value.
unfoldable pub set_label : Dict String → String → String → Dict String
set_label labels k v =
    if len v =? 0
    then if has_key k labels then delete k labels else labels
    else if has_key k labels
    then labels
    else insert k v labels

-- The loop, over the new labels in the order that `range` yields them.
unfoldable pub set_labels : Dict String → Dict String → Dict String
set_labels labels [] = labels
set_labels labels ((k, v) ∷ new_labels) = set_labels (set_label labels k v) new_labels

-- A nil map is made first.
abbrev pub made : Option (Dict String) → Dict String
made none = []
made (some labels) = labels

unfoldable pub set_namespace_labels : Namespace → Dict String → Namespace
set_namespace_labels ns new_labels = record ns {
  meta = record ns.meta { labels = some (set_labels (made ns.meta.labels) new_labels) };
}
