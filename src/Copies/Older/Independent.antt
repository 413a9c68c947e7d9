-- ===== src/Copies/Older/Independent.antt =====
-- The deep copies of profiles of the older versions and the memory of what they copy.
use kubeflow_profile_control.Prelude.{◌≡◌, refl, Option, some, ◌++◌, length}
use kubeflow_profile_control.Copies.{Addr, Heap, Copier}
use kubeflow_profile_control.Copies.Laws.{
  IsDeep, IsDeep-independent, plain-IsDeep, both-IsDeep, struct-IsDeep, pointer-IsDeep,
}
use kubeflow_profile_control.Copies.Slices.{each-IsDeep}
use kubeflow_profile_control.Copies.Profiles.{Library}
use kubeflow_profile_control.Copies.Older.{ListValue, Cell, Copiers}
use kubeflow_profile_control.Copies.Older.V1
use kubeflow_profile_control.Copies.Older.V1beta1

pub data Version : Type 0 where
  v1 v1beta1 : Version

-- `DeepCopy` of a version's `ProfileList`.
unfoldable pub deep_copy_list :
    Version
    → (lib : Library) → Copiers lib
    → Copier (Cell lib) (Option Addr) (Option (ListValue lib))
unfolding V1.deep_copy_profile_list V1beta1.deep_copy_profile_list
deep_copy_list v1 = V1.deep_copy_profile_list
deep_copy_list v1beta1 = V1beta1.deep_copy_profile_list

-- The libraries' copies are deep.
pub record AreDeep {lib : Library} (copiers : Copiers lib) : Type 0 where
  pub raw_extension : IsDeep copiers.copy_raw_extension
  pub object_meta : IsDeep copiers.copy_object_meta
  pub list_meta : IsDeep copiers.copy_list_meta
  pub quota_spec : IsDeep copiers.copy_quota_spec

module _ (lib : Library) (copiers : Copiers lib) (deep : AreDeep copiers) where
  copy_plugin-IsDeep : IsDeep (V1.copy_plugin lib copiers)
  unfolding V1.copy_plugin
  copy_plugin-IsDeep =
      struct-IsDeep _ _ _ _ (λ r f. refl, λ r f w. refl)
        (pointer-IsDeep _ _ deep.raw_extension (λ r. refl))

  copy_profile_spec-IsDeep : IsDeep (V1.copy_profile_spec lib copiers)
  unfolding V1.copy_profile_spec
  copy_profile_spec-IsDeep =
      struct-IsDeep _ _ _ _ (λ r f. refl, λ r f w. refl)
        (both-IsDeep _ _ (pointer-IsDeep _ _ (each-IsDeep _ copy_plugin-IsDeep) (λ r. refl))
          deep.quota_spec)

  copy_profile_status-IsDeep : IsDeep (V1.copy_profile_status lib copiers)
  unfolding V1.copy_profile_status
  copy_profile_status-IsDeep =
      struct-IsDeep _ _ _ _ (λ r f. refl, λ r f w. refl)
        (pointer-IsDeep _ _ plain-IsDeep (λ r. refl))

  copy_profile-IsDeep : IsDeep (V1.copy_profile lib copiers)
  unfolding V1.copy_profile
  copy_profile-IsDeep =
      struct-IsDeep _ _ _ _ (λ r f. refl, λ r f w. refl)
        (both-IsDeep _ _ deep.object_meta
          (both-IsDeep _ _ copy_profile_spec-IsDeep copy_profile_status-IsDeep))

  copy_profile_list-IsDeep : IsDeep (V1.copy_profile_list lib copiers)
  unfolding V1.copy_profile_list
  copy_profile_list-IsDeep =
      struct-IsDeep _ _ _ _ (λ r f. refl, λ r f w. refl)
        (both-IsDeep _ _ deep.list_meta
          (pointer-IsDeep _ _ (each-IsDeep _ copy_profile-IsDeep) (λ r. refl)))

  -- The generated code of the two versions does the same.
  deep_copy_list_agree :
      V1beta1.deep_copy_profile_list lib copiers ≡ V1.deep_copy_profile_list lib copiers
  unfolding V1.copy_plugin V1.copy_profile_spec V1.copy_profile_status V1.copy_profile
      V1.copy_profile_list V1.deep_copy_profile_list V1beta1.copy_plugin V1beta1.copy_profile_spec
      V1beta1.copy_profile_status V1beta1.copy_profile V1beta1.copy_profile_list
      V1beta1.deep_copy_profile_list
  deep_copy_list_agree = refl

  deep_copy_list-IsDeep : (v : Version) → IsDeep (deep_copy_list v lib copiers)
  unfolding deep_copy_list V1.deep_copy_profile_list
  deep_copy_list-IsDeep v1 = pointer-IsDeep _ _ copy_profile_list-IsDeep (λ r. refl)
  deep_copy_list-IsDeep v1beta1 =
      rw deep_copy_list_agree (pointer-IsDeep _ _ copy_profile_list-IsDeep (λ r. refl))

  -- In both older versions, if the libraries' copies are deep, then `DeepCopy` of a pointer to a
  -- profile list, in any memory where it has a value, gives a pointer and adds cells to the memory
  -- so that: the copy has that value; it has it still when all the cells that were there before
  -- are written over; and what was copied has its value whatever the cells behind the old ones
  -- hold. Nil is copied to nil, and nil slices and pointers inside stay nil.
  pub deep_copy_older_list_independent :
      (version : Version) (h over behind : Heap (Cell lib)) (p : Option Addr)
      (v : Option (ListValue lib))
      → length over ≡ length h
      → (deep_copy_list version lib copiers).value h p ≡ some v
      → let deep_copy = deep_copy_list version lib copiers in
        (copy : Option Addr) × (new : Heap (Cell lib)) × (deep_copy.copy_into p h
          ≡ some (copy, h ++ new))
        × (deep_copy.value (over ++ new) copy ≡ some v)
        × (deep_copy.value (h ++ behind) p ≡ some v)
  deep_copy_older_list_independent version h over behind p v l e =
      IsDeep-independent _ (deep_copy_list-IsDeep version) h over behind p v l e
