-- ===== src/Copies/Profiles/Independent.antt =====
-- The deep copies of profiles and the memory of what they copy.
use kubeflow_profile_control.Prelude.{◌≡◌, refl, Option, some, List, ◌++◌, length}
use kubeflow_profile_control.Copies.{Addr, Heap}
use kubeflow_profile_control.Copies.Laws.{
  IsDeep, IsDeep-independent, plain-IsDeep, both-IsDeep, struct-IsDeep, pointer-IsDeep,
}
use kubeflow_profile_control.Copies.Slices.{each-IsDeep}
use kubeflow_profile_control.Copies.Profiles.{ProfileListOf, Library, ProfileValue, Cell, Copiers}
use kubeflow_profile_control.Copies.Profiles.Generated.{
  copy_extra_resource, copy_plugin, copy_profile_spec, copy_profile_status, copy_profile,
  copy_profile_list, deep_copy_profile_list,
}

-- The libraries' copies are deep.
pub record AreDeep {lib : Library} (copiers : Copiers lib) : Type 0 where
  pub raw_extension : IsDeep copiers.copy_raw_extension
  pub object_meta : IsDeep copiers.copy_object_meta
  pub list_meta : IsDeep copiers.copy_list_meta
  pub quota_spec : IsDeep copiers.copy_quota_spec

module _ (lib : Library) (copiers : Copiers lib) (deep : AreDeep copiers) where
  copy_extra_resource-IsDeep : IsDeep (copy_extra_resource lib copiers)
  unfolding copy_extra_resource
  copy_extra_resource-IsDeep =
      struct-IsDeep _ _ _ _ (λ r f. refl, λ r f w. refl)
        (pointer-IsDeep _ _ deep.raw_extension (λ r. refl))

  copy_plugin-IsDeep : IsDeep (copy_plugin lib copiers)
  unfolding copy_plugin
  copy_plugin-IsDeep =
      struct-IsDeep _ _ _ _ (λ r f. refl, λ r f w. refl)
        (pointer-IsDeep _ _ deep.raw_extension (λ r. refl))

  copy_profile_spec-IsDeep : IsDeep (copy_profile_spec lib copiers)
  unfolding copy_profile_spec
  copy_profile_spec-IsDeep =
      struct-IsDeep _ _ _ _ (λ r f. refl, λ r f w. refl)
        (both-IsDeep _ _ (pointer-IsDeep _ _ (each-IsDeep _ copy_plugin-IsDeep) (λ r. refl)) (
          both-IsDeep _ _ deep.quota_spec
            (pointer-IsDeep _ _ (each-IsDeep _ copy_extra_resource-IsDeep) (λ r. refl))))

  copy_profile_status-IsDeep : IsDeep (copy_profile_status lib copiers)
  unfolding copy_profile_status
  copy_profile_status-IsDeep =
      struct-IsDeep _ _ _ _ (λ r f. refl, λ r f w. refl)
        (pointer-IsDeep _ _ plain-IsDeep (λ r. refl))

  copy_profile-IsDeep : IsDeep (copy_profile lib copiers)
  unfolding copy_profile
  copy_profile-IsDeep =
      struct-IsDeep _ _ _ _ (λ r f. refl, λ r f w. refl)
        (both-IsDeep _ _ deep.object_meta
          (both-IsDeep _ _ copy_profile_spec-IsDeep copy_profile_status-IsDeep))

  copy_profile_list-IsDeep : IsDeep (copy_profile_list lib copiers)
  unfolding copy_profile_list
  copy_profile_list-IsDeep =
      struct-IsDeep _ _ _ _ (λ r f. refl, λ r f w. refl)
        (both-IsDeep _ _ deep.list_meta
          (pointer-IsDeep _ _ (each-IsDeep _ copy_profile-IsDeep) (λ r. refl)))

  deep_copy_profile_list-IsDeep : IsDeep (deep_copy_profile_list lib copiers)
  unfolding deep_copy_profile_list
  deep_copy_profile_list-IsDeep = pointer-IsDeep _ _ copy_profile_list-IsDeep (λ r. refl)

  -- If the libraries' copies are deep, then `DeepCopy` of a pointer to a profile list, in any
  -- memory where it has a value, gives a pointer and adds cells to the memory so that: the copy
  -- has that value; it has it still when all the cells that were there before are written over;
  -- and what was copied has its value whatever the cells behind the old ones hold. Nil is copied
  -- to nil, and nil slices and pointers inside stay nil.
  pub deep_copy_profile_list_independent :
      (h over behind : Heap (Cell lib)) (p : Option Addr)
      (v : Option (ProfileListOf lib.ListMetaValue (List (ProfileValue lib))))
      → length over ≡ length h
      → (deep_copy_profile_list lib copiers).value h p ≡ some v
      → let deep_copy = deep_copy_profile_list lib copiers in
        (copy : Option Addr) × (new : Heap (Cell lib)) × (deep_copy.copy_into p h
          ≡ some (copy, h ++ new))
        × (deep_copy.value (over ++ new) copy ≡ some v)
        × (deep_copy.value (h ++ behind) p ≡ some v)
  deep_copy_profile_list_independent h over behind p v l e =
      IsDeep-independent _ deep_copy_profile_list-IsDeep h over behind p v l e
