-- ===== src/Extra/Ends.antt =====
-- The end of the loop of `splitYaml`.
use Prim.Native.String.{len}
use kubeflow_profile_control.Prelude.{
  ℕ, zero, suc, ◌≡◌, ◌≤◌, ◌<◌, refl, String, some, List, [], if◌then◌else◌, arith,
}
use kubeflow_profile_control.Api.Meta.{Unstructured}
use kubeflow_profile_control.Cluster.{Env, Reply, found}
use kubeflow_profile_control.Extra.{
  Manifests, Decoded, end_of_input, broken, document, manifest_error, is_blank, add_object,
  split_documents, split_yaml,
}

-- A decoder of a text has no more input than the text, and a document takes some of it.
pub record IsDecoder {World Template Decoder : Type 0} (lib : Manifests World Template Decoder)
    : Type 0 where
  pub left : Decoder → ℕ
  pub starts : (text : String) → left (lib.new_decoder text) ≤ len text
  pub consumes :
      (d d' : Decoder) (text : String) → lib.decode d ≡ document text d' → left d' < left d

module _ {World Template Decoder : Type 0} (env : Env World)
    (lib : Manifests World Template Decoder) (decoder : IsDecoder lib) where
  -- The result of the loop, at each of two numbers of rounds.
  abbrev SameEnd : ℕ → ℕ → Decoder → Type 0
  SameEnd n m d =
      (r : Reply (List Unstructured)) × (split_documents env lib n d ≡ some r)
      × (split_documents env lib m d ≡ some r)

  decoded-SameEnd :
      (n m : ℕ) (d : Decoder) (r : Decoded Decoder)
      → lib.decode d ≡ r
      → ((text : String) (d' : Decoder) → r ≡ document text d' → SameEnd n m d')
      → SameEnd (suc n) (suc m) d
  unfolding split_documents
  decoded-SameEnd n m d end_of_input e k =
      (found [], rw (e, split_documents) refl, rw (e, split_documents) refl)
  decoded-SameEnd n m d (broken error) e k =
      (manifest_error env lib error, rw (e, split_documents) refl, rw (e, split_documents) refl)
  decoded-SameEnd n m d (document text d') e k =
      let (r, by_n, by_m) = k text d' refl in
      let raw = lib.trim_space text in
      let added =
        if is_blank env lib raw then r else add_object env lib (lib.unmarshal_yaml raw) r in
      (added, rw (e, split_documents) (rw by_n refl), rw (e, split_documents) (rw by_m refl))

  split_documents-SameEnd :
      (n m : ℕ) (d : Decoder) → decoder.left d < n → decoder.left d < m → SameEnd n m d
  split_documents-SameEnd zero m d h k = absurd (omega arith)
  split_documents-SameEnd (suc n) zero d h k = absurd (omega arith)
  split_documents-SameEnd (suc n) (suc m) d h k =
      decoded-SameEnd n m d (lib.decode d) refl (λ text d' e.
        let less = decoder.consumes d d' text e in
        split_documents-SameEnd n m d' (omega arith) (omega arith))

  -- If each document that is decoded takes a byte of the input at least, the loop of `splitYaml`
  -- ends on every text, with objects or an error, and letting it go on for any number of rounds
  -- above the length of the text changes nothing.
  pub split_yaml_ends :
      (text : String) (n : ℕ)
      → len text < n
      → (r : Reply (List Unstructured)) × (split_yaml env lib text ≡ some r)
        × (split_documents env lib n (lib.new_decoder text) ≡ some r)
  unfolding split_yaml
  split_yaml_ends text n h =
      let first = decoder.starts text in
      split_documents-SameEnd (suc (len text)) n (lib.new_decoder text) (omega arith) (omega arith)
