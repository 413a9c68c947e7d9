-- ===== src/Extra/Confined.antt =====
-- What `reconcileExtraResources` applies, and where.
use kubeflow_profile_control.Prelude.{
  String, ◌≡◌, refl, Option, none, some, List, [], ◌∷◌, arith, All,
}
use kubeflow_profile_control.Api.Meta.{ObjectMeta, Unstructured}
use kubeflow_profile_control.Api.Profile.{Profile, ExtraResource}
use kubeflow_profile_control.Cluster.{
  Env, Act, State, Error, Event, apply_object, Reply, found, failed,
}
use kubeflow_profile_control.Cluster.Keeps.{IsReferenceSetter, Emits, Keeps, Keeps-bind}
use kubeflow_profile_control.Extra.{
  Manifests, render, render_rest, render_all, deserialize_extra_resources, after_patch, apply_owned,
  apply_objects, reconcile_extra_resources,
}

-- An apply of an object in the namespace.
abbrev pub IsConfined : String → Event → Type 0
IsConfined name (apply_object u) = u.meta.namespace ≡ name
IsConfined name _ = ⊥

-- The object that is applied for one of a template: that object, in the profile's namespace.
pub record IsPlaced (profile : Profile) (obj u : Unstructured) : Type 0 where
  pub kind : u.kind ≡ obj.kind
  pub content : u.content ≡ obj.content
  pub name : u.meta.name ≡ obj.meta.name
  pub namespace : u.meta.namespace ≡ profile.meta.name
  pub labels : u.meta.labels ≡ obj.meta.labels
  pub annotations : u.meta.annotations ≡ obj.meta.annotations

-- The events after the objects are applied one by one, and before.
abbrev pub Applied : Profile → List Unstructured → List Event → List Event → Type 0
Applied profile [] before after = after ≡ before
Applied profile (obj ∷ objs) before after =
    (u : Unstructured) × IsPlaced profile obj u
    × Applied profile objs (apply_object u ∷ before) after

module _ {World Template Decoder : Type 0} (env : Env World)
    (lib : Manifests World Template Decoder) (profile : Profile) where
  abbrev Confines : {A : Type 0} → Act World A → Type 0
  Confines = Keeps (Emits (IsConfined profile.meta.name))

  Confines-render : (extra : ExtraResource) → Confines (render env lib profile extra)
  unfolding render
  Confines-render extra s h = ground arith

  Confines-render_rest :
      (extras : List ExtraResource) → Confines (render_rest env lib profile extras)
  unfolding render_rest
  Confines-render_rest [] = λ s h. h
  Confines-render_rest (extra ∷ extras) =
      Keeps-bind (Emits (IsConfined profile.meta.name)) (render env lib profile extra) _
        (Confines-render extra)
        (λ text.
          Keeps-bind (Emits (IsConfined profile.meta.name)) (render_rest env lib profile extras) _
            (Confines-render_rest extras) (λ rest s h. h))

  Confines-render_all : (extras : List ExtraResource) → Confines (render_all env lib profile extras)
  unfolding render_all
  Confines-render_all [] = λ s h. h
  Confines-render_all (extra ∷ extras) =
      Keeps-bind (Emits (IsConfined profile.meta.name)) (render env lib profile extra) _
        (Confines-render extra)
        (λ text.
          Keeps-bind (Emits (IsConfined profile.meta.name)) (render_rest env lib profile extras) _
            (Confines-render_rest extras) (λ rest s h. h))

  Confines-deserialize : Confines (deserialize_extra_resources env lib profile)
  unfolding deserialize_extra_resources
  Confines-deserialize =
      Keeps-bind (Emits (IsConfined profile.meta.name))
        (render_all env lib profile profile.spec.extra_resources) _
        (Confines-render_all profile.spec.extra_resources) (λ text s h. ground arith)

  Confines-after_patch :
      (e : Option Error) (rest : Act World (Unit {0}))
      → Confines rest
      → Confines (after_patch env lib e rest)
  unfolding after_patch
  Confines-after_patch none rest k = k
  Confines-after_patch (some e) rest k = λ s h. h

  Confines-apply_owned :
      (obj : Unstructured) (r : Reply ObjectMeta) (rest : Act World (Unit {0}))
      → ((m : ObjectMeta) → r ≡ found m → m.namespace ≡ profile.meta.name)
      → Confines rest
      → Confines (apply_owned env lib obj r rest)
  unfolding apply_owned
  Confines-apply_owned obj (failed e) rest placed k s h = h
  Confines-apply_owned obj (found m) rest placed k s h =
      Confines-after_patch (lib.patch (record obj { meta = m }) s.world).0 rest k
        (record {
          world = (lib.patch (record obj { meta = m }) s.world).1;
          events = apply_object (record obj { meta = m }) ∷ s.events;
        })
        (placed m refl, h)

  module _ (setter : IsReferenceSetter env) where
    Confines-apply_objects :
        (objs : List Unstructured) → Confines (apply_objects env lib profile objs)
    unfolding apply_objects
    Confines-apply_objects [] = λ s h. h
    Confines-apply_objects (obj ∷ objs) =
        Confines-apply_owned
          (record obj { meta = record obj.meta { namespace = profile.meta.name } }) _
          (apply_objects env lib profile objs) (λ m set. setter.keeps_namespace profile _ m set)
          (Confines-apply_objects objs)

    -- The events of `reconcileExtraResources` are applies of objects in the profile's namespace and
    -- nothing else, whatever namespaces the templates give to them; started with no event.
    pub reconcile_extra_resources-IsConfined :
        (s : State World)
        → s.events ≡ []
        → All (IsConfined profile.meta.name) (reconcile_extra_resources env lib profile s).1.events
    unfolding reconcile_extra_resources
    reconcile_extra_resources-IsConfined s none_yet =
        Keeps-bind (Emits (IsConfined profile.meta.name))
          (deserialize_extra_resources env lib profile) (apply_objects env lib profile)
          Confines-deserialize Confines-apply_objects s (rw none_yet tt)
