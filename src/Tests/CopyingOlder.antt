-- ===== src/Tests/CopyingOlder.antt =====
-- A deep copy of a profile list of apis/kubeflow.org/v1beta1 in a small memory.
use kubeflow_profile_control.Prelude.{String, ◌≡◌, refl, Option, none, some, [], ◌∷◌, ◌++◌}
use kubeflow_profile_control.Copies.{Addr, Heap, Kind, plain, pointer}
use kubeflow_profile_control.Copies.Laws.{plain-IsDeep, pointer-IsDeep}
use kubeflow_profile_control.Copies.Older.{Cell, Copiers, ListValue}
use kubeflow_profile_control.Copies.Older.V1beta1.{deep_copy_profile_list}
use kubeflow_profile_control.Copies.Older.Independent.{
  v1beta1, deep_copy_list, AreDeep, deep_copy_older_list_independent,
}
use kubeflow_profile_control.Tests.Copying.{lib, type_meta, owner}

abbrev bytes_kind : Kind (Cell lib) String
bytes_kind = record { wrap = Cell.other; unwrap = λ c. elim c [ Cell.other s ↦ some s | _ ↦ none ] }

abbrev copiers : Copiers lib
unfolding plain pointer
copiers = record {
  copy_raw_extension = pointer bytes_kind plain;
  copy_object_meta = plain;
  copy_list_meta = plain;
  copy_quota_spec = plain;
}

deep : AreDeep copiers
unfolding copiers pointer
deep = record {
  raw_extension = pointer-IsDeep bytes_kind plain plain-IsDeep (λ r. refl);
  object_meta = plain-IsDeep;
  list_meta = plain-IsDeep;
  quota_spec = plain-IsDeep;
}

-- A list of one profile with two plugins, which share their settings.
abbrev memory : Heap (Cell lib)
memory =
    Cell.other "{gcpServiceAccount: reader}"
    ∷ Cell.raw_extension (some 0)
    ∷ Cell.plugins (
        record { type_meta = type_meta "WorkloadIdentity"; spec = some 1 }
        ∷ record { type_meta = type_meta "Other"; spec = some 1 }
        ∷ [])
    ∷ Cell.profiles (
        record {
          type_meta = type_meta "Profile";
          meta = "alice-ns";
          spec = record { owner = owner; plugins = some 2; resource_quota_spec = "" };
          status = record { conditions = none };
        }
        ∷ [])
    ∷ Cell.profile_list (record { type_meta = type_meta "ProfileList"; meta = ""; items = some 3 })
    ∷ []

abbrev profiles : Option (ListValue lib)
profiles = some (record {
  type_meta = type_meta "ProfileList";
  meta = "";
  items = some (
      record {
        type_meta = type_meta "Profile";
        meta = "alice-ns";
        spec = record {
          owner = owner;
          plugins = some (
              record {
                type_meta = type_meta "WorkloadIdentity";
                spec = some (some "{gcpServiceAccount: reader}");
              }
              ∷ record {
                type_meta = type_meta "Other";
                spec = some (some "{gcpServiceAccount: reader}");
              }
              ∷ []);
          resource_quota_spec = "";
        };
        status = record { conditions = none };
      }
      ∷ []);
})

abbrev over : Heap (Cell lib)
over = Cell.other "x" ∷ Cell.other "x" ∷ Cell.other "x" ∷ Cell.other "x" ∷ Cell.other "x" ∷ []

deep_copy_older_list_independent_example :
    let deep_copy = deep_copy_list v1beta1 lib copiers in
    (copy : Option Addr) × (new : Heap (Cell lib)) × (deep_copy.copy_into (some 4) memory
      ≡ some (copy, memory ++ new))
    × (deep_copy.value (over ++ new) copy ≡ some profiles)
    × (deep_copy.value (memory ++ over) (some 4) ≡ some profiles)
unfolding deep_copy_list deep_copy_profile_list
deep_copy_older_list_independent_example =
    deep_copy_older_list_independent lib copiers deep v1beta1 memory over over (some 4) profiles
      refl refl
