-- ===== src/Tests/Copying.antt =====
-- Deep copies in small memories, with a library whose raw extensions are texts behind a pointer.
use kubeflow_profile_control.Prelude.{String, ◌≡◌, refl, Option, none, some, List, [], ◌∷◌, ◌++◌}
use kubeflow_profile_control.Api.Meta.{Subject}
use kubeflow_profile_control.Copies.{Addr, Heap, Kind, plain, pointer}
use kubeflow_profile_control.Copies.Laws.{plain-IsDeep, pointer-IsDeep}
use kubeflow_profile_control.Copies.Profiles.{
  TypeMeta, Library, Cell, Copiers, ProfileListOf, ProfileValue,
}
use kubeflow_profile_control.Copies.Profiles.Generated.{deep_copy_profile_list}
use kubeflow_profile_control.Copies.Profiles.Independent.{
  AreDeep, deep_copy_profile_list_independent,
}
use kubeflow_profile_control.Copies.Configs
use kubeflow_profile_control.Copies.Configs.Independent
use kubeflow_profile_control.Copies.Configs.Generated.{deep_copy_config_list}
use kubeflow_profile_control.Copies.Configs.Independent.{deep_copy_config_list_independent}
use kubeflow_profile_control.Tests.Server.{config}

abbrev pub lib : Library
lib = record {
  Other = String;
  RawExtension = Option Addr;
  RawExtensionValue = Option String;
  ObjectMeta = String;
  ObjectMetaValue = String;
  ListMeta = String;
  ListMetaValue = String;
  QuotaSpec = String;
  QuotaSpecValue = String;
}

abbrev bytes_kind : Kind (Cell lib) String
bytes_kind = record { wrap = Cell.other; unwrap = λ c. elim c [ Cell.other s ↦ some s | _ ↦ none ] }

abbrev copiers : Copiers lib
unfolding plain pointer
copiers = record {
  copy_raw_extension = pointer bytes_kind plain;
  copy_object_meta = plain;
  copy_list_meta = plain;
  copy_quota_spec = plain;
}

deep : AreDeep copiers
unfolding copiers pointer
deep = record {
  raw_extension = pointer-IsDeep bytes_kind plain plain-IsDeep (λ r. refl);
  object_meta = plain-IsDeep;
  list_meta = plain-IsDeep;
  quota_spec = plain-IsDeep;
}

abbrev pub type_meta : String → TypeMeta
type_meta kind = record { kind = kind; api_version = "kubeflow.org/v2alpha1" }

abbrev pub owner : Subject
owner = record { kind = "User"; api_group = ""; name = "alice"; namespace = "" }

-- A list of one profile with one plugin, whose settings lie behind two pointers.
abbrev memory : Heap (Cell lib)
memory =
    Cell.other "{awsIamRole: reader}"
    ∷ Cell.raw_extension (some 0)
    ∷ Cell.plugins (record { type_meta = type_meta "AwsIamForServiceAccount"; spec = some 1 } ∷ [])
    ∷ Cell.conditions []
    ∷ Cell.profiles (
        record {
          type_meta = type_meta "Profile";
          meta = "alice-ns";
          spec = record {
            owner = owner;
            plugins = some 2;
            resource_quota_spec = "";
            cluster_role = "";
            extra_resources = none;
          };
          status = record { conditions = some 3 };
        }
        ∷ [])
    ∷ Cell.profile_list (record { type_meta = type_meta "ProfileList"; meta = ""; items = some 4 })
    ∷ []

abbrev profiles : Option (ProfileListOf String (List (ProfileValue lib)))
profiles = some (record {
  type_meta = type_meta "ProfileList";
  meta = "";
  items = some (
      record {
        type_meta = type_meta "Profile";
        meta = "alice-ns";
        spec = record {
          owner = owner;
          plugins = some (
              record {
                type_meta = type_meta "AwsIamForServiceAccount";
                spec = some (some "{awsIamRole: reader}");
              }
              ∷ []);
          resource_quota_spec = "";
          cluster_role = "";
          extra_resources = none;
        };
        status = record { conditions = some [] };
      }
      ∷ []);
})

-- What was copied is written over, cell by cell.
abbrev over : Heap (Cell lib)
over =
    Cell.other "x"
    ∷ Cell.other "x"
    ∷ Cell.other "x"
    ∷ Cell.other "x"
    ∷ Cell.other "x"
    ∷ Cell.other "x"
    ∷ []

deep_copy_profile_list_independent_example :
    let deep_copy = deep_copy_profile_list lib copiers in
    (copy : Option Addr) × (new : Heap (Cell lib)) × (deep_copy.copy_into (some 5) memory
      ≡ some (copy, memory ++ new))
    × (deep_copy.value (over ++ new) copy ≡ some profiles)
    × (deep_copy.value (memory ++ over) (some 5) ≡ some profiles)
unfolding deep_copy_profile_list
deep_copy_profile_list_independent_example =
    deep_copy_profile_list_independent lib copiers deep memory over over (some 5) profiles refl refl

abbrev config_copiers : Configs.Copiers lib
unfolding plain
config_copiers = record { copy_object_meta = plain; copy_list_meta = plain }

config_deep : Configs.Independent.AreDeep config_copiers
unfolding config_copiers
config_deep = record { object_meta = plain-IsDeep; list_meta = plain-IsDeep }

abbrev spec_over : {N A : Type 0} → N → A → Configs.ConfigSpecOf N A
spec_over namespace admins = record {
  infrastructure = config.spec.infrastructure;
  namespace = namespace;
  network = config.spec.network;
  security = config.spec.security;
  identity = config.spec.identity;
  admins = some admins;
}

-- A list of one Config, with a map of labels and a slice of admins.
abbrev config_memory : Heap (Configs.Cell lib)
config_memory =
    Configs.Cell.labels (("team", "ml") ∷ [])
    ∷ Configs.Cell.admins ("root" ∷ [])
    ∷ Configs.Cell.configs (
        record {
          type_meta = type_meta "Config";
          meta = "config";
          spec = spec_over (record { default_labels = some 0 }) 1;
          status = record {};
        }
        ∷ [])
    ∷ Configs.Cell.config_list
        (record { type_meta = type_meta "ConfigList"; meta = ""; items = some 2 })
    ∷ []

abbrev configs : Option (Configs.ConfigListOf String (List (Configs.ConfigValue lib)))
configs = some (record {
  type_meta = type_meta "ConfigList";
  meta = "";
  items = some (
      record {
        type_meta = type_meta "Config";
        meta = "config";
        spec = spec_over (record { default_labels = some (("team", "ml") ∷ []) }) ("root" ∷ []);
        status = record {};
      }
      ∷ []);
})

abbrev config_over : Heap (Configs.Cell lib)
config_over =
    Configs.Cell.other "x"
    ∷ Configs.Cell.labels []
    ∷ Configs.Cell.admins []
    ∷ Configs.Cell.other "x"
    ∷ []

deep_copy_config_list_independent_example :
    let deep_copy = deep_copy_config_list lib config_copiers in
    (copy : Option Addr) × (new : Heap (Configs.Cell lib)) × (deep_copy.copy_into
        (some 3)
        config_memory
      ≡ some (copy, config_memory ++ new))
    × (deep_copy.value (config_over ++ new) copy ≡ some configs)
    × (deep_copy.value (config_memory ++ config_over) (some 3) ≡ some configs)
unfolding deep_copy_config_list
deep_copy_config_list_independent_example =
    deep_copy_config_list_independent lib config_copiers config_deep config_memory config_over
      config_over (some 3) configs refl refl
