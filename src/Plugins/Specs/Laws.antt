-- ===== src/Plugins/Specs/Laws.antt =====
-- What is read of a profile's plugins, and what the default one adds.
use kubeflow_profile_control.Prelude.{
  String, ◌≡◌, refl, sym, ap, ◌∙◌, Bool, true, false, not, ◌&&◌, ◌||◌, Option, List, [], ◌∷◌, ◌++◌,
  ◌==◌, if◌then◌else◌, arith,
}
use kubeflow_profile_control.Prelude.Dict.{Dict, insert, has_key, lookup, lookup-insert}
use kubeflow_profile_control.Api.Profile.{Plugin}
use kubeflow_profile_control.Cluster.{Reply, found, failed}
use kubeflow_profile_control.Plugins.Specs.{
  kind_workload_identity, kind_aws_iam_for_service_account, PluginInstance, workload_identity,
  aws_iam_for_service_account, YamlLib, then_read, add_plugin, read_workload_identity, read_aws_iam,
  get_plugin_spec, plugins_by_kind, default_workload_identity, patched_plugins,
}

abbrev pub kind_of : PluginInstance → String
kind_of (workload_identity _) = kind_workload_identity
kind_of (aws_iam_for_service_account _) = kind_aws_iam_for_service_account

abbrev pub kinds_of : List PluginInstance → List String
kinds_of [] = []
kinds_of (x ∷ xs) = kind_of x ∷ kinds_of xs

-- The kinds that the controller knows, of the given ones.
abbrev pub known : List Plugin → List String
known [] = []
known (p ∷ ps) =
    let rest = known ps in
    if p.kind == kind_workload_identity
    then kind_workload_identity ∷ rest
    else if p.kind == kind_aws_iam_for_service_account
    then kind_aws_iam_for_service_account ∷ rest
    else rest

-- Some plugin is a workload identity.
abbrev pub has_workload_identity : List Plugin → Bool
has_workload_identity [] = false
has_workload_identity (p ∷ ps) =
    if p.kind == kind_workload_identity then true else has_workload_identity ps

has_key-insert :
    {A : Type 0} (k k' : String) (v : A) (d : Dict A)
    → has_key k (insert k' v d) ≡ (if k' == k then true else has_key k d)
unfolding has_key
has_key-insert k k' v d = rw (lookup-insert k' k v d, has_key) (ground arith)

has_key-plugins_by_kind :
    (ps : List Plugin) (d : Dict Plugin)
    → has_key kind_workload_identity (plugins_by_kind ps d)
      ≡ (has_workload_identity ps || has_key kind_workload_identity d)
unfolding plugins_by_kind
has_key-plugins_by_kind [] d = refl
has_key-plugins_by_kind (p ∷ ps) d =
    rw (has_key-plugins_by_kind ps (insert p.kind p d))
      (rw (has_key-insert kind_workload_identity p.kind p d) (ground arith))

has_workload_identity-append :
    (ps qs : List Plugin)
    → has_workload_identity (ps ++ qs) ≡ (has_workload_identity ps || has_workload_identity qs)
has_workload_identity-append [] qs = refl
has_workload_identity-append (p ∷ ps) qs = ground (arith, has_workload_identity-append ps qs)

-- Where the controller has a workload identity, the patched plugins have exactly one more plugin
-- than the user's if those have no workload identity, the default one, at the end; otherwise they
-- are the user's.
pub patched_plugins-cases :
    (wi : String) (ps : List Plugin)
    → patched_plugins wi ps ≡ (
        if not (wi == "") && not (has_workload_identity ps)
        then ps ++ (default_workload_identity wi ∷ [])
        else ps)
unfolding patched_plugins has_key lookup
patched_plugins-cases wi ps = rw (has_key-plugins_by_kind ps []) (ground arith)

-- Patching a profile's plugins with the default one a second time changes nothing.
pub patched_plugins_settled :
    (wi : String) (ps : List Plugin)
    → patched_plugins wi (patched_plugins wi ps) ≡ patched_plugins wi ps
unfolding default_workload_identity
patched_plugins_settled wi ps = rw (patched_plugins-cases wi (patched_plugins wi ps)) (
    rw (patched_plugins-cases wi ps)
      (ground (arith, has_workload_identity-append ps (default_workload_identity wi ∷ []))))

module _ {Text : Type 0} (lib : YamlLib Text) where
  then_read-all :
      {A B : Type 0} (P : B → Type 0) (r : Reply A) (f : A → Reply B)
      → ((a : A) (x : B) → f a ≡ found x → P x)
      → (x : B) → then_read r f ≡ found x
      → P x
  then_read-all P (found a) f h x e = h a x e
  then_read-all P (failed _) f h x e = cc

  found-inj : {A : Type 0} (x y : A) → Reply.found x ≡ found y → x ≡ y
  found-inj x y e = cc

  read_workload_identity-kind :
      (spec : Option String) (x : PluginInstance)
      → read_workload_identity lib spec ≡ found x
      → kind_of x ≡ kind_workload_identity
  read_workload_identity-kind spec =
      then_read-all (λ x. kind_of x ≡ kind_workload_identity) (lib.marshal spec)
        (λ bytes.
          then_read (lib.unmarshal_workload_identity bytes)
            (λ plugin. found (workload_identity plugin)))
        (λ bytes.
          then_read-all (λ x. kind_of x ≡ kind_workload_identity)
            (lib.unmarshal_workload_identity bytes) (λ plugin. found (workload_identity plugin))
            (λ plugin x e. sym (ap kind_of (found-inj (workload_identity plugin) x e))))

  read_aws_iam-kind :
      (spec : Option String) (x : PluginInstance)
      → read_aws_iam lib spec ≡ found x
      → kind_of x ≡ kind_aws_iam_for_service_account
  read_aws_iam-kind spec =
      then_read-all (λ x. kind_of x ≡ kind_aws_iam_for_service_account) (lib.marshal spec)
        (λ bytes.
          then_read (lib.unmarshal_aws_iam bytes)
            (λ plugin. found (aws_iam_for_service_account plugin)))
        (λ bytes.
          then_read-all (λ x. kind_of x ≡ kind_aws_iam_for_service_account)
            (lib.unmarshal_aws_iam bytes) (λ plugin. found (aws_iam_for_service_account plugin))
            (λ plugin x e. sym (ap kind_of (found-inj (aws_iam_for_service_account plugin) x e))))

  add_plugin-kinds :
      (r : Reply PluginInstance) (rest : Reply (List PluginInstance)) (k : String)
      (ks : List String) (xs : List PluginInstance)
      → ((x : PluginInstance) → r ≡ found x → kind_of x ≡ k)
      → ((ys : List PluginInstance) → rest ≡ found ys → kinds_of ys ≡ ks)
      → add_plugin r rest ≡ found xs
      → kinds_of xs ≡ k ∷ ks
  add_plugin-kinds (failed _) rest k ks xs hx hs e = cc
  add_plugin-kinds (found x) (failed _) k ks xs hx hs e = cc
  add_plugin-kinds (found x) (found ys) k ks xs hx hs e =
      sym (ap kinds_of (found-inj (x ∷ ys) xs e))
      ∙ ap (λ z. z ∷ kinds_of ys) (hx x refl)
      ∙ ap (λ z. k ∷ z) (hs ys refl)

  -- If `GetPluginSpec` returns plugins, their kinds are the known ones among the kinds of the
  -- profile's plugins, in their order: a plugin of another kind is passed over.
  pub get_plugin_spec-kinds :
      (ps : List Plugin) (xs : List PluginInstance)
      → get_plugin_spec lib ps ≡ found xs
      → kinds_of xs ≡ known ps
  unfolding get_plugin_spec
  get_plugin_spec-kinds [] xs e = sym (ap kinds_of (found-inj [] xs e))
  get_plugin_spec-kinds (p ∷ ps) xs e = ground (
    arith,
    get_plugin_spec-kinds ps xs,
    add_plugin-kinds (read_workload_identity lib p.spec) (get_plugin_spec lib ps)
        kind_workload_identity (known ps) xs (read_workload_identity-kind p.spec)
        (get_plugin_spec-kinds ps),
    add_plugin-kinds (read_aws_iam lib p.spec) (get_plugin_spec lib ps)
        kind_aws_iam_for_service_account (known ps) xs (read_aws_iam-kind p.spec)
        (get_plugin_spec-kinds ps),
  )
