-- ===== src/Tests/Replicated.antt =====
-- Copies of the controller at a server that keeps a log of the namespaces that it has stored.
use mathlib.Core.Path.{subst}
use kubeflow_profile_control.Prelude.{◌≡◌, refl, sym, ap, ◌∙◌, inl, inr, ◌⊎◌, none, some, []}
use kubeflow_profile_control.Prelude.Dict.{lookup}
use kubeflow_profile_control.Api.Meta.{Namespace}
use kubeflow_profile_control.Api.Profile.{Profile}
use kubeflow_profile_control.Reconcile.{annotation, reconcile}
use kubeflow_profile_control.System.{IsApiServer, Step, other, create, relabel, save}
use kubeflow_profile_control.System.Ownership.{owner_of, Run, start, others, reconciled}
use kubeflow_profile_control.System.Replicas.{among_replicas, owner_for_ever}
use kubeflow_profile_control.Tests.Server.{alice}
use kubeflow_profile_control.Tests.Log.{Store, namespace_at, WasStored}
use kubeflow_profile_control.Tests.Store.{
  view, Reconfigures, reconfiguring_keeps, env, setter, retries, IsApiServer-among,
}
use kubeflow_profile_control.Tests.Histories.{key, owned_by}

Step-keeps :
    (p : Profile) (w w' : Store) (ns : Namespace)
    → Step view p w w'
    → WasStored w.log ns
    → WasStored w'.log ns
Step-keeps p w w' ns (other o) seen = reconfiguring_keeps w w' ns o seen
Step-keeps p w w' ns (create _ _ _ _ _ _ _ put) seen = put.keeps_seen ns seen
Step-keeps p w w' ns (relabel _ _ _ _ _ _ _ _ _ put) seen = put.keeps_seen ns seen
Step-keeps p w w' ns (save _ _ _ saved) seen =
    subst (λ (v : Store). WasStored v.log ns) (sym saved) seen

abbrev Among : Store → Store → Type 0
Among w w' = Reconfigures w w' ⊎ ((q : Profile) × Step view q w w')

Among-keeps :
    (w w' : Store) (ns : Namespace) → Among w w' → WasStored w.log ns → WasStored w'.log ns
Among-keeps w w' ns (inl o) seen = reconfiguring_keeps w w' ns o seen
Among-keeps w w' ns (inr (q, step)) seen = Step-keeps q w w' ns step seen

api_server : IsApiServer (among_replicas view) env
api_server = IsApiServer-among Among Among-keeps

others_keep :
    (u v : Store)
    → Reconfigures u v
    → owner_of (namespace_at u "alice-ns") ≡ some "alice"
    → owner_of (namespace_at v "alice-ns") ≡ some "alice"
others_keep u v o h = ap (λ x. owner_of (namespace_at x "alice-ns")) o.1 ∙ h

-- A run that relabels alice's namespace, the writes of another copy to alice's profile and of
-- somebody else to the config, and another run.
abbrev first : Store
first = owned_by "alice"

abbrev run : Store → Store
run w = (reconcile env key (record { world = w; events = [] })).1.world

abbrev copied : Store
copied = record (run first) { profile = some alice }

history : Run env (among_replicas view) first (run (record copied { configuration = none }))
history = reconciled key (
    others (others (reconciled key start) (inr (alice, save alice refl refl refl)))
      (inl (none, refl)))

owned : owner_of (namespace_at first "alice-ns") ≡ some "alice"
unfolding owner_of annotation lookup
owned = refl

owner_for_ever_example :
    owner_of (namespace_at (run (record copied { configuration = none })) "alice-ns") ≡ some "alice"
owner_for_ever_example =
    owner_for_ever env view api_server "alice-ns" "alice" others_keep setter retries first
      (run (record copied { configuration = none })) history owned
