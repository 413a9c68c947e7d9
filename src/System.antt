-- ===== src/System.antt =====
-- The controller among the other writers of the API server: what the server does for the calls of
-- `Env`, and what `Reconcile` of controllers/kubeflow.org/profile_controller.go may do to it.
pub mod Ownership
pub mod Replicas
use kubeflow_profile_control.Prelude.{String, ◌≡◌, ◌≢◌, Option, none, some, ◌==◌, if◌then◌else◌}
use kubeflow_profile_control.Prelude.Dict.{Dict, lookup, HasDistinctKeys}
use kubeflow_profile_control.Api.Meta.{NamespacedName, Namespace}
use kubeflow_profile_control.Api.Profile.{Profile}
use kubeflow_profile_control.Api.Config.{Config}
use kubeflow_profile_control.Labels.{made}
use kubeflow_profile_control.Labels.Merge.{merge}
use kubeflow_profile_control.Cluster.{Env, found}
use kubeflow_profile_control.Reconcile.{owner_annotation, annotation}

-- Any number of steps.
pub data Many {A : Type 0} (R : A → A → Type 0) (a : A) : A → Type 0 where
  here : Many R a a
  next : {b c : A} → Many R a b → R b c → Many R a c

-- How a world is seen: the namespace that the server stores under a name, the versions that it has
-- stored so far, what the other writers do, the effect of saving a profile, and the default labels
-- of the Configs that the server has had.
pub record View (World : Type 0) : Type 1 where
  pub namespace_at : World → String → Option Namespace
  pub Seen : World → Namespace → Type 0
  pub Others : World → World → Type 0
  pub Saves : Profile → World → World → Type 0
  pub Configured : Dict String → Type 0

module _ {World : Type 0} (view : View World) where
  abbrev pub Evolves : World → World → Type 0
  Evolves = Many view.Others

  -- The server stores the namespace that it is sent, with all the annotations sent and with the
  -- labels sent, but for the one that it sets itself; it leaves the other namespaces as they are, and
  -- it has stored what it had stored before.
  pub record IsPut (ns : Namespace) (w w' : World) : Type 0 where
    pub stored : Namespace
    pub is_stored : view.namespace_at w' ns.meta.name ≡ some stored
    pub keeps_annotations : (k v : String) → annotation k ns ≡ some v → annotation k stored ≡ some v
    pub keeps_labels :
        (k : String)
        → k ≢ "kubernetes.io/metadata.name"
        → lookup k (made stored.meta.labels) ≡ lookup k (made ns.meta.labels)
    pub keeps_seen : (seen : Namespace) → view.Seen w seen → view.Seen w' seen
    pub keeps_others :
        (name : String) → name ≢ ns.meta.name → view.namespace_at w' name ≡ view.namespace_at w name

  -- A write that a server accepts: a creation where nothing is stored, an update of the version
  -- that is stored now.
  pub data IsCreated (ns : Namespace) (w w' : World) : Type 0 where
    created : view.namespace_at w ns.meta.name ≡ none → IsPut ns w w' → IsCreated ns w w'

  pub data IsUpdated (ns : Namespace) (w w' : World) : Type 0 where
    updated :
        (current : Namespace)
        → view.namespace_at w ns.meta.name ≡ some current
        → current.meta.resource_version ≡ ns.meta.resource_version
        → IsPut ns w w'
        → IsUpdated ns w w'

  -- A call that writes: the others go on meanwhile, and the write is done or not, whatever error
  -- the caller sees (a request may time out after its effect).
  pub data Attempt (R : World → World → Type 0) (w w' : World) : Type 0 where
    refused : Evolves w w' → Attempt R w w'
    done : (u : World) → Evolves w u → R u w' → Attempt R w w'

  -- What the controller relies on of the API server, and of the client's cache: a read may answer
  -- with a version that is stored no more, and an update of such a version is refused.
  pub record IsApiServer (env : Env World) : Type 0 where
    pub get_profile : (key : NamespacedName) (w : World) → Evolves w (env.profiles.get key w).1
    pub get_config : (key : NamespacedName) (w : World) → Evolves w (env.configs.get key w).1
    pub config_labels :
        (key : NamespacedName) (w : World) (config : Config)
        → (env.configs.get key w).0 ≡ found config
        → view.Configured (made config.spec.namespace.default_labels)
    -- A map of the Config has each key once.
    pub config_distinct :
        (key : NamespacedName) (w : World) (config : Config)
        → (env.configs.get key w).0 ≡ found config
        → HasDistinctKeys (made config.spec.namespace.default_labels)
    pub get_namespace : (key : NamespacedName) (w : World) → Evolves w (env.namespaces.get key w).1
    pub namespace_name :
        (key : NamespacedName) (w : World) (ns : Namespace)
        → (env.namespaces.get key w).0 ≡ found ns
        → ns.meta.name ≡ key.name
    pub namespace_seen :
        (key : NamespacedName) (w : World) (ns : Namespace)
        → (env.namespaces.get key w).0 ≡ found ns
        → view.Seen (env.namespaces.get key w).1 ns
    pub versioned : (w : World) (ns : Namespace) → view.Seen w ns → ns.meta.resource_version ≢ ""
    pub seen_later :
        (w w' : World) (ns : Namespace) → view.Others w w' → view.Seen w ns → view.Seen w' ns
    -- Each version of an object has a resource version of its own.
    pub same_version :
        (w : World) (ns current : Namespace)
        → view.Seen w ns
        → view.namespace_at w ns.meta.name ≡ some current
        → current.meta.resource_version ≡ ns.meta.resource_version
        → current ≡ ns
    pub create_namespace :
        (ns : Namespace) (w : World) → Attempt (IsCreated ns) w (env.namespaces.create ns w).1
    -- The server checks the version of an update that names one.
    pub update_namespace :
        (ns : Namespace) (w : World)
        → ns.meta.resource_version ≢ ""
        → Attempt (IsUpdated ns) w (env.namespaces.update ns w).1
    pub update_profile :
        (p : Profile) (w : World) → Attempt (view.Saves p) w (env.profiles.update p w).1
    pub saves_profile_only :
        (p : Profile) (w w' : World) (name : String)
        → view.Saves p w w'
        → view.namespace_at w' name ≡ view.namespace_at w name

  -- What may happen while a profile is reconciled: a step of another writer; the creation of the
  -- profile's namespace where there is none, with the profile's owner on it, and at each label what
  -- the rule makes of Istio's label and a Config's default ones; the namespace as it is stored, if
  -- the profile's owner owns it, with at each label what the rule makes of its own and a Config's
  -- default ones, and with nothing else changed; a new status or new finalizers of the profile.
  pub data Step (p : Profile) (w w' : World) : Type 0 where
    other : view.Others w w' → Step p w w'
    create :
        (ns : Namespace) (labels : Dict String)
        → view.Configured labels
        → ((k : String)
            → lookup k (made ns.meta.labels)
              ≡ merge (if "istio-injection" == k then some "enabled" else none) (lookup k labels))
        → ns.meta.name ≡ p.meta.name
        → annotation owner_annotation ns ≡ some p.spec.owner.name
        → view.namespace_at w p.meta.name ≡ none
        → IsPut ns w w'
        → Step p w w'
    relabel :
        (ns new : Namespace) (labels : Dict String)
        → view.Configured labels
        → ns.meta.name ≡ p.meta.name
        → annotation owner_annotation ns ≡ some p.spec.owner.name
        → view.namespace_at w p.meta.name ≡ some ns
        → new ≡ record ns { meta = record ns.meta { labels = new.meta.labels } }
        → ((k : String)
            → lookup k (made new.meta.labels)
              ≡ merge (lookup k (made ns.meta.labels)) (lookup k labels))
        → IsPut new w w'
        → Step p w w'
    save :
        (p' : Profile)
        → p'.meta.name ≡ p.meta.name
        → p'.spec ≡ p.spec
        → view.Saves p' w w'
        → Step p w w'
