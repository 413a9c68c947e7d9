-- ===== src/Tests/Applying.antt =====
-- The extra resources of a profile: one template with one object, which names another namespace.
use Prim.Native.String.{len}
use Prim.Native.String.len
use text.Mathlib.TextPositions.{len_utf8-pos}
use kubeflow_profile_control.Extra.Ends.{IsDecoder, split_yaml_ends}
use kubeflow_profile_control.Prelude.{
  sym, ◌<◌, ◌≢◌, List, arith, eq_iff, String, Bool, true, false, ◌==◌, ◌≡◌, refl, none, some, [],
  ◌∷◌, All,
}
use kubeflow_profile_control.Api.Meta.{Unstructured, zero_meta}
use kubeflow_profile_control.Api.Profile.{Profile}
use kubeflow_profile_control.Cluster.{State, Reply, found}
use kubeflow_profile_control.Plugins.Json.{object, of_members}
use kubeflow_profile_control.Extra.{
  Manifests, split_yaml, split_documents, Decoded, end_of_input, document,
  reconcile_extra_resources,
}
use kubeflow_profile_control.Extra.Confined.{IsConfined, reconcile_extra_resources-IsConfined}
use kubeflow_profile_control.Tests.Server.{Server, server, env, setter, alice}

abbrev secret : Unstructured
secret = record {
  kind = "Secret";
  meta = record zero_meta { name = "token"; namespace = "kube-system" };
  content = "";
}

-- A decoder is what is left of its text: all of it is one document.
abbrev decoded : String → Bool → Decoded String
decoded t true = end_of_input
decoded t false = document t ""

-- Templates are their files' names, and every document gives the secret.
abbrev manifests : Manifests (Server String) String String
manifests = record {
  parse_files = λ name w. (found name, w);
  marshal_json = found;
  unmarshal_json = λ t. found (object (of_members []));
  execute = λ name vars. found name;
  new_decoder = λ t. t;
  decode = λ t. decoded t (t == "");
  trim_space = λ t. t;
  unmarshal_yaml = λ t. found secret;
  error_text = λ e. "error";
  patch = λ u w. (none, w);
}

abbrev with_secret : Profile
with_secret = record alice {
  spec = record alice.spec {
    extra_resources = record { file_name = "secret.yaml"; vars = some "{}" } ∷ [];
  };
}

abbrev start : State (Server String)
start = record { world = server ""; events = [] }

reconcile_extra_resources-IsConfined_example :
    All (IsConfined "alice-ns") (reconcile_extra_resources env manifests with_secret start).1.events
reconcile_extra_resources-IsConfined_example =
    reconcile_extra_resources-IsConfined env manifests with_secret setter start refl

len-pos : (t : String) → t ≢ "" → 0 < len t
len-pos String.[] ne = absurd (ne refl)
len-pos (String.◌∷◌ c s) ne = let (k, wide) = len_utf8-pos c in rw (len.cons c s) (omega arith)

decoded-consumes :
    (t text d' : String) (b : Bool)
    → (t == "") ≡ b
    → decoded t b ≡ document text d'
    → len d' < len t
decoded-consumes t text d' true e q = cc
decoded-consumes t text d' false e q =
    let some_left : t ≢ "" = ground (arith, eq_iff t "") in
    let rest : "" ≡ d' = cc in rw (sym rest) (len-pos t some_left)

decoder : IsDecoder manifests
decoder = record {
  left = len;
  starts = λ text. omega arith;
  consumes = λ d d' text e. decoded-consumes d text d' (d == "") refl e;
}

split_yaml_ends_example :
    (r : Reply (List Unstructured)) × (split_yaml env manifests "a: b" ≡ some r)
    × (split_documents env manifests 9 "a: b" ≡ some r)
split_yaml_ends_example = split_yaml_ends env manifests decoder "a: b" 9 (omega arith)
