-- ===== src/Extra.antt =====
-- controllers/kubeflow.org/resource_reconciler.go: the resources that a profile's templates give.
-- text/template, encoding/json, the YAML decoders and the client's `Patch` are the parameter
-- `Manifests`.
pub mod Confined
pub mod Ends
use Prim.Native.String.{len}
use kubeflow_profile_control.Prelude.{
  ℕ, zero, suc, String, Bool, Option, none, some, List, [], ◌∷◌, ◌==◌, ◌||◌, ◌⧺◌, if◌then◌else◌,
}
use kubeflow_profile_control.Prelude.Dict.{Dict, insert}
use kubeflow_profile_control.Api.Meta.{ObjectMeta, Unstructured}
use kubeflow_profile_control.Api.Profile.{Profile, ExtraResource, ProfileSpec}
use kubeflow_profile_control.Cluster.{
  Env, Act, State, Outcome, ok, err, panic, Error, Reply, found, failed, pure, fail, crash, perform,
  apply, ◌>>=◌, ◌>>◌,
}
use kubeflow_profile_control.Plugins.Json.{Json, string, object, members}

-- What `Decode` gives: the end of the input, an error, or a document and the decoder behind it.
pub data Decoded (Decoder : Type 0) : Type 0 where
  end_of_input : Decoded Decoder
  broken : Error → Decoded Decoder
  document : String → Decoder → Decoded Decoder

pub record Manifests (World Template Decoder : Type 0) : Type 0 where
  pub parse_files : String → World → Reply Template × World
  pub marshal_json : String → Reply String
  pub unmarshal_json : String → Reply Json
  pub execute : Template → Dict Json → Reply String
  pub new_decoder : String → Decoder
  pub decode : Decoder → Decoded Decoder
  pub trim_space : String → String
  pub unmarshal_yaml : String → Reply Unstructured
  pub error_text : Error → String
  pub patch : Unstructured → World → Option Error × World

module _ {World Template Decoder : Type 0} (env : Env World)
    (lib : Manifests World Template Decoder) where
  abbrev pub manifest_error : {A : Type 0} → Error → Reply A
  manifest_error e = failed (Error.message ("failed to unmarshal manifest: " ⧺ lib.error_text e))

  abbrev pub add_object : Reply Unstructured → Reply (List Unstructured) → Reply (List Unstructured)
  add_object (failed e) rest = manifest_error e
  add_object (found u) (failed e) = failed e
  add_object (found u) (found us) = found (u ∷ us)

  -- `len(ext.Raw) == 0 || bytes.Equal(ext.Raw, []byte("null"))`
  abbrev pub is_blank : String → Bool
  is_blank raw = raw == "" || raw == "null"

  -- What one document adds to the result of the others.
  abbrev add_document :
      String → Option (Reply (List Unstructured)) → Option (Reply (List Unstructured))
  add_document raw none = none
  add_document raw (some rest) =
      some (if is_blank raw then rest else add_object (lib.unmarshal_yaml raw) rest)

  -- The loop of `splitYaml`, at most so many times; on an error its caller drops the objects.
  unfoldable pub split_documents : ℕ → Decoder → Option (Reply (List Unstructured))
  split_documents zero d = none
  split_documents (suc n) d = elim (lib.decode d) [
    | end_of_input ↦ some (found [])
    | broken e ↦ some (manifest_error e)
    | document text d' ↦ add_document (lib.trim_space text) (split_documents n d')
  ]

  -- Each document takes a byte of the input at least.
  unfoldable pub split_yaml : String → Option (Reply (List Unstructured))
  unfolding split_documents
  split_yaml yaml_data = split_documents (suc (len yaml_data)) (lib.new_decoder yaml_data)

  abbrev returned : {A : Type 0} → Reply A → Act World A
  returned (failed e) = fail e
  returned (found a) = pure a

  -- `tempVars.(map[string]interface{})`, which panics at any other value
  abbrev vars_map : Json → Act World (Dict Json)
  vars_map (object ms) = pure (members ms)
  vars_map _ = crash

  -- A nil pointer is dereferenced by its method `MarshalJSON`.
  abbrev vars_json : Option String → Act World String
  vars_json none = crash
  vars_json (some raw) = returned (lib.marshal_json raw)

  -- The body of the loop of `deserializeExtraResources`: what one resource writes to the buffer.
  unfoldable pub render : Profile → ExtraResource → Act World String
  unfolding insert members
  render profile extra = do
    parsed ← perform (lib.parse_files extra.file_name)
    tmpl ← returned parsed
    json ← vars_json extra.vars
    value ← returned (lib.unmarshal_json json)
    vars ← vars_map value
    returned (lib.execute tmpl (insert "Namespace" (string profile.meta.name) vars))

  -- The resources behind the first, each with the line before it.
  unfoldable pub render_rest : Profile → List ExtraResource → Act World String
  unfolding render
  render_rest profile [] = pure ""
  render_rest profile (extra ∷ extras) = do
    text ← render profile extra
    rest ← render_rest profile extras
    pure ("---\n" ⧺ (text ⧺ rest))

  unfoldable pub render_all : Profile → List ExtraResource → Act World String
  unfolding render_rest
  render_all profile [] = pure ""
  render_all profile (extra ∷ extras) = do
    text ← render profile extra
    rest ← render_rest profile extras
    pure (text ⧺ rest)

  -- The loop has always ended by then.
  abbrev objects_of : Option (Reply (List Unstructured)) → Act World (List Unstructured)
  objects_of none = crash
  objects_of (some r) = returned r

  unfoldable pub deserialize_extra_resources : Profile → Act World (List Unstructured)
  unfolding render_all split_yaml
  deserialize_extra_resources profile = do
    text ← render_all profile profile.spec.extra_resources
    objects_of (split_yaml text)

  -- The end of the loop's body: `Patch`, and the rest of the loop unless it fails.
  after_patch : Option Error → Act World (Unit {0}) → Act World (Unit {0})
  after_patch none rest = rest
  after_patch (some e) rest = fail e

  -- From the owner reference on.
  apply_owned : Unstructured → Reply ObjectMeta → Act World (Unit {0}) → Act World (Unit {0})
  unfolding after_patch
  apply_owned obj (failed e) rest = fail e
  apply_owned obj (found meta) rest = do
    e ← apply lib.patch (record obj { meta = meta })
    after_patch e rest

  -- The loop of `reconcileExtraResources`.
  unfoldable pub apply_objects : Profile → List Unstructured → Act World (Unit {0})
  unfolding apply_owned
  apply_objects profile [] = pure tt
  apply_objects profile (obj ∷ objs) =
      let placed : ObjectMeta = record obj.meta { namespace = profile.meta.name } in
      apply_owned (record obj { meta = placed }) (env.set_controller_reference profile placed)
        (apply_objects profile objs)

  unfoldable pub reconcile_extra_resources : Profile → Act World (Unit {0})
  unfolding deserialize_extra_resources apply_objects
  reconcile_extra_resources profile = do
    objs ← deserialize_extra_resources profile
    apply_objects profile objs
