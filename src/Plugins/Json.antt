-- ===== src/Plugins/Json.antt =====
-- The values that encoding/json reads and writes, and the two libraries that stand between them and
-- the text of a policy document. The text is of a type `Text` of its own: this code only hands it
-- on, and all that it reads of it goes by `json.Unmarshal` and by gjson.
use kubeflow_profile_control.Prelude.{String, ◌≡◌, refl, Bool, none, some, List, [], ◌∷◌, ap}
use kubeflow_profile_control.Prelude.Dict.{Dict, lookup}
use kubeflow_profile_control.Cluster.{Reply, found}

-- An object lists its members by key, in the order in which `json.Marshal` writes them.
mutual
  pub data Json : Type 0 where
    null : Json
    boolean : Bool → Json
    number : String → Json
    string : String → Json
    array : Items → Json
    object : Members → Json

  pub data Items : Type 0 where
    nil : Items
    cons : Json → Items → Items

  pub data Members : Type 0 where
    end : Members
    member : String → Json → Members → Members

unfoldable pub items : Items → List Json
items nil = []
items (cons j js) = j ∷ items js

unfoldable pub of_items : List Json → Items
of_items [] = nil
of_items (j ∷ js) = cons j (of_items js)

unfoldable pub members : Members → Dict Json
members end = []
members (member k j ms) = (k, j) ∷ members ms

unfoldable pub of_members : Dict Json → Members
of_members [] = end
of_members ((k, j) ∷ ms) = member k j (of_members ms)

pub items-of_items : (js : List Json) → items (of_items js) ≡ js
unfolding items of_items
items-of_items [] = refl
items-of_items (j ∷ js) = ap (λ r. j ∷ r) (items-of_items js)

pub members-of_members : (ms : Dict Json) → members (of_members ms) ≡ ms
unfolding members of_members
members-of_members [] = refl
members-of_members ((k, j) ∷ ms) = ap (λ r. (k, j) ∷ r) (members-of_members ms)

-- Go's `[]string` as a value.
unfoldable pub strings : List String → List Json
strings [] = []
strings (s ∷ ss) = string s ∷ strings ss

-- `v[k]` of a value that should be an object, and `v[0]` of one that should be an array.
unfoldable pub member_at : String → Json → Json
unfolding members lookup
member_at k (object ms) = elim (lookup k (members ms)) [ none ↦ null | some j ↦ j ]
member_at k _ = null

unfoldable pub first_item : Json → Json
first_item (array (cons j js)) = j
first_item _ = null

-- `json.Unmarshal` into an `interface{}`, `json.Marshal` of a value, `gjson.Get`, and the methods
-- of gjson's result. A path that leads nowhere gives `null`.
pub record JsonLib (Text : Type 0) : Type 0 where
  pub unmarshal : Text → Reply Json
  pub marshal : Json → Text
  pub empty : Text
  pub gjson_get : Text → String → Json
  pub result_string : Json → String
  pub result_map : Json → Dict Json
  pub result_array : Json → List Json
  pub result_str : Json → String

-- The documented behaviour that the policy code relies on.
pub record IsJsonLib {Text : Type 0} (lib : JsonLib Text) : Type 0 where
  pub unmarshal-marshal : (j : Json) → lib.unmarshal (lib.marshal j) ≡ found j
  pub gjson_get-federated :
      (j : Json)
      → lib.gjson_get (lib.marshal j) "Statement.0.Principal.Federated"
        ≡ member_at "Federated" (member_at "Principal" (first_item (member_at "Statement" j)))
  pub gjson_get-string_equals :
      (j : Json)
      → lib.gjson_get (lib.marshal j) "Condition.StringEquals"
        ≡ member_at "StringEquals" (member_at "Condition" j)
  pub result_string-string : (s : String) → lib.result_string (string s) ≡ s
  pub result_map-object : (ms : Members) → lib.result_map (object ms) ≡ members ms
  pub result_array-array : (js : Items) → lib.result_array (array js) ≡ items js
  pub result_str-string : (s : String) → lib.result_str (string s) ≡ s
