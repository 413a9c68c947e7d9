-- ===== src/Labels/File.antt =====
-- `readDefaultLabelsFromFile` of controllers/kubeflow.org/profile_controller.go, which no code
-- calls. The file system and the YAML library are parameters.
use kubeflow_profile_control.Prelude.{ℕ, String, Option, some, []}
use kubeflow_profile_control.Prelude.Dict.{Dict}
use kubeflow_profile_control.Cluster.{Reply, found, failed}

-- `ioutil.ReadFile(path)`, and `yaml.Unmarshal(dat, &labels)` with what is in `labels` before and
-- after: a document may make the map nil.
pub record Files (Text : Type 0) : Type 0 where
  pub read_file : String → Reply Text
  pub unmarshal : Text → Option (Dict String) → Reply (Option (Dict String))

-- The function returns, or ends the program with `os.Exit`.
pub data Exit (A : Type 0) : Type 0 where
  returns : A → Exit A
  exits : ℕ → Exit A

module _ {Text : Type 0} (files : Files Text) where
  parse_labels : Text → Exit (Option (Dict String))
  parse_labels dat = elim (files.unmarshal dat (some [])) [
    | found labels ↦ returns labels
    | failed e ↦ exits 1
  ]

  unfoldable pub read_default_labels_from_file : String → Exit (Option (Dict String))
  unfolding parse_labels
  read_default_labels_from_file path = elim (files.read_file path) [
    | found dat ↦ parse_labels dat
    | failed e ↦ exits 1
  ]
