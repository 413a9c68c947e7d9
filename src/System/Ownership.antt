-- ===== src/System/Ownership.antt =====
-- Ownership of namespaces over whole histories: many runs of `reconcile`, for any profiles, between
-- the steps of other writers.
use kubeflow_profile_control.Prelude.{
  String, arith, ◌≡◌, ◌≢◌, ◌⊎◌, inl, inr, refl, sym, ap, ◌∙◌, Option, none, some, [], ◌==◌, eq_iff,
  Bool-cases,
}
use kubeflow_profile_control.Api.Meta.{NamespacedName, Namespace}
use kubeflow_profile_control.Api.Profile.{Profile}
use kubeflow_profile_control.Cluster.{Env, State, found}
use kubeflow_profile_control.Cluster.Keeps.{IsReferenceSetter, IsRetry, Reply-cases}
use kubeflow_profile_control.Reconcile.{owner_annotation, annotation, reconcile}
use kubeflow_profile_control.Reconcile.Refines.Runs.{reconcile_refines, reconcile_unread}
use kubeflow_profile_control.System.{
  Many, here, next, View, Evolves, IsPut, IsApiServer, Step, other, save, create, relabel,
}

unfoldable pub owner_of : Option Namespace → Option String
owner_of none = none
owner_of (some ns) = annotation owner_annotation ns

-- A namespace that differs from another in its labels only.
relabelled-annotation :
    (ns new : Namespace) (k : String)
    → new ≡ record ns { meta = record ns.meta { labels = new.meta.labels } }
    → annotation k new ≡ annotation k ns
unfolding annotation
relabelled-annotation ns new k e = ap (annotation k) e

relabelled-name :
    (ns new : Namespace)
    → new ≡ record ns { meta = record ns.meta { labels = new.meta.labels } }
    → new.meta.name ≡ ns.meta.name
relabelled-name ns new e = ap (λ (n : Namespace). n.meta.name) e

String-cases : (s t : String) → (s ≡ t) ⊎ (s ≢ t)
String-cases s t = elim (Bool-cases (s == t)) [
  | inl e ↦ inl (ground (arith, eq_iff s t))
  | inr e ↦ inr (λ q. ground (arith, eq_iff s t))
]

module _ {World : Type 0} (env : Env World) (view : View World) where
  -- A history of the API server.
  pub data Run (w : World) : World → Type 0 where
    start : Run w w
    others : {u v : World} → Run w u → view.Others u v → Run w v
    reconciled :
        {u : World} (key : NamespacedName)
        → Run w u
        → Run w (reconcile env key (record { world = u; events = [] })).1.world

  put_keeps_owner :
      (ns : Namespace) (o name : String) {w w' : World}
      → ns.meta.name ≡ name
      → annotation owner_annotation ns ≡ some o
      → IsPut view ns w w'
      → owner_of (view.namespace_at w' name) ≡ some o
  unfolding owner_of
  put_keeps_owner ns o name same owned put =
      let stored = put.is_stored in
      let kept = put.keeps_annotations owner_annotation o owned in rw (sym same) (rw stored kept)

  module _ (name owner : String)
      (others_keep : (u v : World)
        → view.Others u v
        → owner_of (view.namespace_at u name) ≡ some owner
        → owner_of (view.namespace_at v name) ≡ some owner)
      (saves_keep : (p : Profile) (u v : World)
        → view.Saves p u v
        → view.namespace_at v name ≡ view.namespace_at u name) where
    pub step_keeps_owner :
        {p : Profile} {w w' : World}
        → Step view p w w'
        → owner_of (view.namespace_at w name) ≡ some owner
        → owner_of (view.namespace_at w' name) ≡ some owner
    unfolding owner_of
    step_keeps_owner (other o) h = others_keep _ _ o h
    step_keeps_owner {p} {w} (create ns labels _ _ same owned free put) h =
        elim (String-cases name p.meta.name) [
          | inl e ↦
              let nobody : owner_of (view.namespace_at w name) ≡ none = rw (e, free) refl in cc
          | inr ne ↦ ap owner_of (put.keeps_others name (λ e. ne (e ∙ same))) ∙ h
        ]
    step_keeps_owner {p} {w} (relabel ns new labels _ same owned stored rest _ put) h =
        elim (String-cases name p.meta.name) [
          | inl e ↦
              let same_owner : annotation owner_annotation ns ≡ some owner =
                sym (ap owner_of (ap (view.namespace_at w) e ∙ stored)) ∙ h in
              put_keeps_owner new owner name (relabelled-name ns new rest ∙ same ∙ sym e)
                (relabelled-annotation ns new owner_annotation rest ∙ same_owner) put
          | inr ne ↦
              ap owner_of (put.keeps_others name (λ e. ne (e ∙ relabelled-name ns new rest ∙ same)))
              ∙ h
        ]
    step_keeps_owner (save p' _ _ saved) h = ap owner_of (saves_keep p' _ _ saved) ∙ h

    steps_keep_owner :
        {p : Profile} {w w' : World}
        → Many (Step view p) w w'
        → owner_of (view.namespace_at w name) ≡ some owner
        → owner_of (view.namespace_at w' name) ≡ some owner
    steps_keep_owner here h = h
    steps_keep_owner (next steps step) h = step_keeps_owner step (steps_keep_owner steps h)

    others_keep_owner :
        {w w' : World}
        → Evolves view w w'
        → owner_of (view.namespace_at w name) ≡ some owner
        → owner_of (view.namespace_at w' name) ≡ some owner
    others_keep_owner here h = h
    others_keep_owner (next steps step) h = others_keep _ _ step (others_keep_owner steps h)

  module _ (server : IsApiServer view env) (name owner : String)
      (others_keep : (u v : World)
        → view.Others u v
        → owner_of (view.namespace_at u name) ≡ some owner
        → owner_of (view.namespace_at v name) ≡ some owner) where
    reconcile_keeps_owner :
        IsReferenceSetter env
        → IsRetry env
        → (key : NamespacedName) (s : State World)
        → owner_of (view.namespace_at s.world name) ≡ some owner
        → owner_of (view.namespace_at (reconcile env key s).1.world name) ≡ some owner
    reconcile_keeps_owner setter retry key s h =
        elim (Reply-cases (env.profiles.get key s.world).0) [
          | inl (p, e) ↦
              steps_keep_owner name owner others_keep
                (λ q u v saved. server.saves_profile_only q u v name saved)
                (reconcile_refines env view server setter retry key p s e) h
          | inr (e, q) ↦
              others_keep_owner name owner others_keep
                (λ q u v saved. server.saves_profile_only q u v name saved)
                (reconcile_unread env view server key e s q) h
        ]

    pub run_keeps_owner :
        IsReferenceSetter env
        → IsRetry env
        → (w w' : World) → Run w w'
        → owner_of (view.namespace_at w name) ≡ some owner
        → owner_of (view.namespace_at w' name) ≡ some owner
    run_keeps_owner setter retry w w' start h = h
    run_keeps_owner setter retry w w' (others run step) h =
        others_keep _ _ step (run_keeps_owner setter retry w _ run h)
    run_keeps_owner setter retry w w' (reconciled {u} key run) h =
        reconcile_keeps_owner setter retry key (record { world = u; events = [] })
          (run_keeps_owner setter retry w u run h)

  module _ (server : IsApiServer view env) (p : Profile) (name : String) (ns : Namespace)
      (others_leave : (u v : World)
        → view.Others u v
        → view.namespace_at u name ≡ some ns
        → view.namespace_at v name ≡ some ns)
      (foreign : (name ≢ p.meta.name)
        ⊎ (annotation owner_annotation ns ≢ some p.spec.owner.name)) where
    Step-leaves :
        {w w' : World}
        → Step view p w w'
        → view.namespace_at w name ≡ some ns
        → view.namespace_at w' name ≡ some ns
    unfolding owner_of annotation
    Step-leaves (other o) h = others_leave _ _ o h
    Step-leaves {w} (create new labels _ _ same owned free put) h =
        put.keeps_others name (λ e. taken (e ∙ same)) ∙ h
      where
        taken : ¬ (name ≡ p.meta.name)
        taken e = let no_ns : view.namespace_at w name ≡ none = rw (e, free) refl in cc
    Step-leaves {w} (relabel old new labels _ same owned stored rest _ put) h =
        put.keeps_others name (λ e. another (e ∙ relabelled-name old new rest ∙ same)) ∙ h
      where
        another : ¬ (name ≡ p.meta.name)
        another e =
            let there : some ns ≡ some old = sym h ∙ ap (view.namespace_at w) e ∙ stored in
            elim foreign [ inl ne ↦ ne e | inr not_its ↦ not_its (ap owner_of there ∙ owned) ]
    Step-leaves (save p' _ _ saved) h = server.saves_profile_only p' _ _ name saved ∙ h

    Many-leaves :
        {w w' : World}
        → Many (Step view p) w w'
        → view.namespace_at w name ≡ some ns
        → view.namespace_at w' name ≡ some ns
    Many-leaves here h = h
    Many-leaves (next steps step) h = Step-leaves step (Many-leaves steps h)

    -- A run of `reconcile` that reads a profile leaves each namespace as it is, labels and all,
    -- that has another name than the profile or whose `owner` annotation is missing or is not the
    -- profile's owner, provided that the other writers leave it meanwhile: also where a cached
    -- read answers with an older version, and however the calls of the run fail.
    pub reconcile_leaves :
        IsReferenceSetter env
        → IsRetry env
        → (key : NamespacedName) (s : State World) → (env.profiles.get key s.world).0 ≡ found p
        → view.namespace_at s.world name ≡ some ns
        → view.namespace_at (reconcile env key s).1.world name ≡ some ns
    reconcile_leaves setter retry key s read h =
        Many-leaves (reconcile_refines env view server setter retry key p s read) h
