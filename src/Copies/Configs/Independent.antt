-- ===== src/Copies/Configs/Independent.antt =====
-- The deep copies of the Config and the memory of what they copy.
use kubeflow_profile_control.Prelude.{◌≡◌, refl, Option, some, List, ◌++◌, length}
use kubeflow_profile_control.Copies.{Addr, Heap}
use kubeflow_profile_control.Copies.Laws.{
  IsDeep, IsDeep-independent, plain-IsDeep, both-IsDeep, struct-IsDeep, pointer-IsDeep,
}
use kubeflow_profile_control.Copies.Slices.{each-IsDeep}
use kubeflow_profile_control.Copies.Profiles.{Library}
use kubeflow_profile_control.Copies.Configs.{ConfigListOf, ConfigValue, Cell, Copiers}
use kubeflow_profile_control.Copies.Configs.Generated.{
  copy_namespace_spec, copy_config_spec, copy_config, copy_config_list, deep_copy_config_list,
}

copy_namespace_spec-IsDeep : (lib : Library) → IsDeep (copy_namespace_spec lib)
unfolding copy_namespace_spec
copy_namespace_spec-IsDeep lib =
    struct-IsDeep _ _ _ _ (λ r f. refl, λ r f w. refl) (pointer-IsDeep _ _ plain-IsDeep (λ r. refl))

copy_config_spec-IsDeep : (lib : Library) → IsDeep (copy_config_spec lib)
unfolding copy_config_spec
copy_config_spec-IsDeep lib =
    struct-IsDeep _ _ _ _ (λ r f. refl, λ r f w. refl)
      (both-IsDeep _ _ (copy_namespace_spec-IsDeep lib)
        (pointer-IsDeep _ _ plain-IsDeep (λ r. refl)))

-- The libraries' copies are deep.
pub record AreDeep {lib : Library} (copiers : Copiers lib) : Type 0 where
  pub object_meta : IsDeep copiers.copy_object_meta
  pub list_meta : IsDeep copiers.copy_list_meta

module _ (lib : Library) (copiers : Copiers lib) (deep : AreDeep copiers) where
  copy_config-IsDeep : IsDeep (copy_config lib copiers)
  unfolding copy_config
  copy_config-IsDeep =
      struct-IsDeep _ _ _ _ (λ r f. refl, λ r f w. refl)
        (both-IsDeep _ _ deep.object_meta (copy_config_spec-IsDeep lib))

  deep_copy_config_list-IsDeep : IsDeep (deep_copy_config_list lib copiers)
  unfolding copy_config_list deep_copy_config_list
  deep_copy_config_list-IsDeep =
      pointer-IsDeep _ _
        (struct-IsDeep _ _ _ _ (λ r f. refl, λ r f w. refl)
          (both-IsDeep _ _ deep.list_meta
            (pointer-IsDeep _ _ (each-IsDeep _ copy_config-IsDeep) (λ r. refl))))
        (λ r. refl)

  -- If the libraries' copies are deep, then `DeepCopy` of a pointer to a list of Configs, in any
  -- memory where it has a value, gives a pointer and adds cells to the memory so that: the copy,
  -- with its maps of labels and its admins, has that value, also when all the cells that were
  -- there before are written over; and what was copied has its value whatever the cells behind
  -- the old ones hold.
  pub deep_copy_config_list_independent :
      (h over behind : Heap (Cell lib)) (p : Option Addr)
      (v : Option (ConfigListOf lib.ListMetaValue (List (ConfigValue lib))))
      → length over ≡ length h
      → (deep_copy_config_list lib copiers).value h p ≡ some v
      → let deep_copy = deep_copy_config_list lib copiers in
        (copy : Option Addr) × (new : Heap (Cell lib)) × (deep_copy.copy_into p h
          ≡ some (copy, h ++ new))
        × (deep_copy.value (over ++ new) copy ≡ some v)
        × (deep_copy.value (h ++ behind) p ≡ some v)
  deep_copy_config_list_independent h over behind p v l e =
      IsDeep-independent _ deep_copy_config_list-IsDeep h over behind p v l e
