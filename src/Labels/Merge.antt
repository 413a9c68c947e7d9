-- ===== src/Labels/Merge.antt =====
-- What `set_labels` does to each key.
use Prim.Native.String.{len}
use kubeflow_profile_control.Prelude.{
  String, ◌≡◌, refl, true, Option, none, some, [], ◌∷◌, arith, ◌==◌, eq_iff, ◌=?◌, if◌then◌else◌,
  sym, ◌∙◌, ap,
}
use kubeflow_profile_control.Prelude.Dict.{
  Dict, lookup, has_key, HasDistinctKeys, lookup-insert, lookup-delete, deep_equal, deep_equal_iff,
}
use kubeflow_profile_control.Labels.{set_label, set_labels}

-- The documented rule for one key: the label that the namespace has, if any, and the new value, if
-- any. An empty value removes; a label that is there is not changed; else the value is added.
abbrev pub merge : Option String → Option String → Option String
merge old none = old
merge none (some v) = if len v =? 0 then none else some v
merge (some w) (some v) = if len v =? 0 then none else some w

lookup-set_label :
    (labels : Dict String) (k v j : String)
    → lookup j (set_label labels k v)
      ≡ (if k == j then merge (lookup j labels) (some v) else lookup j labels)
unfolding set_label has_key
lookup-set_label labels k v j =
    ground (arith, eq_iff k j, lookup-insert k j v labels, lookup-delete k j labels)

-- `setNamespaceLabels` leaves at each key what the documented rule `merge` makes of the namespace's
-- label there and the new one; the keys of the new labels are distinct.
pub lookup-set_labels :
    (labels new_labels : Dict String) (j : String)
    → HasDistinctKeys new_labels
    → lookup j (set_labels labels new_labels) ≡ merge (lookup j labels) (lookup j new_labels)
unfolding set_labels lookup
lookup-set_labels labels [] j d = refl
lookup-set_labels labels ((k, v) ∷ new_labels) j d = ground (
  arith,
  eq_iff k j,
  lookup-set_label labels k v j,
  lookup-set_labels (set_label labels k v) new_labels j,
)

pub merge_idem : (old new : Option String) → merge (merge old new) new ≡ merge old new
merge_idem none none = refl
merge_idem (some w) none = refl
merge_idem none (some v) = ground arith
merge_idem (some w) (some v) = ground arith

-- Setting the same labels a second time changes no label; their keys are distinct.
pub set_labels_settled :
    (labels new_labels : Dict String)
    → HasDistinctKeys new_labels
    → deep_equal
        (set_labels labels new_labels)
        (set_labels (set_labels labels new_labels) new_labels)
      ≡ true
set_labels_settled labels new_labels d = (deep_equal_iff _ _).1 λ k. sym (
    lookup-set_labels (set_labels labels new_labels) new_labels k d
    ∙ ap (λ o. merge o (lookup k new_labels)) (lookup-set_labels labels new_labels k d)
    ∙ merge_idem (lookup k labels) (lookup k new_labels)
    ∙ sym (lookup-set_labels labels new_labels k d))

-- The labels set do not depend on the order in which `range` yields the new ones: two lists of the
-- same labels, each with distinct keys, give equal maps.
set_labels_order :
    (labels new_labels new_labels' : Dict String)
    → HasDistinctKeys new_labels
    → HasDistinctKeys new_labels'
    → ((k : String) → lookup k new_labels ≡ lookup k new_labels')
    → deep_equal (set_labels labels new_labels) (set_labels labels new_labels') ≡ true
set_labels_order labels new_labels new_labels' d d' same = (deep_equal_iff _ _).1 λ k.
    lookup-set_labels labels new_labels k d
    ∙ ap (merge (lookup k labels)) (same k)
    ∙ sym (lookup-set_labels labels new_labels' k d')
