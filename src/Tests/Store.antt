-- ===== src/Tests/Store.antt =====
-- A server that keeps a log of the namespaces that it has stored, and that others configure.
use mathlib.Core.Path.{subst}
use kubeflow_profile_control.Prelude.{
  String, arith, ◌≡◌, refl, sym, ap, ◌∙◌, Option, none, some, ◌==◌, eq_iff, true, false, Bool,
  Option-cases, inl, inr, ◌∷◌,
}
use kubeflow_profile_control.Api.Meta.{Namespace, ObjectMeta}
use kubeflow_profile_control.Api.Config.{Config}
use kubeflow_profile_control.Labels.{made}
use kubeflow_profile_control.Prelude.Dict.{HasDistinctKeys}
use kubeflow_profile_control.Cluster.{Env, ObjectClient, Error, found, failed}
use kubeflow_profile_control.Reconcile.{annotation}
use kubeflow_profile_control.System.{
  here, View, IsPut, IsCreated, created, IsUpdated, updated, Attempt, refused, done, IsApiServer,
}
use kubeflow_profile_control.Cluster.Keeps.{IsReferenceSetter, IsRetry}
use kubeflow_profile_control.Tests.Retry.{retry, retry-keeps, retry-ends, retry-stops}
use kubeflow_profile_control.Tests.Server.{not_found, answer, found-inj, is_not_found, owned_by}
use kubeflow_profile_control.Tests.Log.{
  Configuration, Store, configured, stored_after, namespace_at, find, WasStored, find-WasStored,
  version_unique, WasStored-versioned,
}

abbrev put : Namespace → Store → Store
put ns w = record w { log = ns ∷ w.log }

abbrev pub Reconfigures : Store → Store → Type 0
Reconfigures w w' = (c : Option Configuration) × (w' ≡ record w { configuration = c })

-- The server among other writers.
abbrev pub view_among : (Store → Store → Type 0) → View Store
view_among among = record {
  namespace_at = namespace_at;
  Seen = λ w ns. WasStored w.log ns;
  Others = among;
  Saves = λ p w w'. w' ≡ record w { profile = some p };
  Configured = λ labels. (c : Config) × (labels ≡ made c.spec.namespace.default_labels);
}

-- Where the others are those who configure the server.
abbrev pub view : View Store
view = view_among Reconfigures

abbrev pub conflict : Error
conflict = Error.status_error "Conflict" "the object has been modified"

abbrev create : Option Namespace → Namespace → Store → Option Error × Store
create none ns w = (none, put ns w)
create (some _) ns w = (some conflict, w)

abbrev checked : Bool → Namespace → Store → Option Error × Store
checked true ns w = (none, put ns w)
checked false ns w = (some conflict, w)

abbrev update : Option Namespace → Namespace → Store → Option Error × Store
update none ns w = (some not_found, w)
update (some current) ns w =
    checked (current.meta.resource_version == ns.meta.resource_version) ns w

-- No object of the kind is there, and none is kept.
abbrev no_objects : {A : Type 0} → ObjectClient Store A
no_objects = record {
  get = λ key w. (failed not_found, w);
  create = λ a w. (none, w);
  update = λ a w. (none, w);
}

abbrev pub env : Env Store
env = record {
  profiles = record {
    get = λ key w. (answer w.profile, w);
    create = λ p w. (none, record w { profile = some p });
    update = λ p w. (none, record w { profile = some p });
  };
  configs = record no_objects { get = λ key w. (answer (configured w.configuration), w) };
  namespaces = record {
    get = λ key w. (answer (namespace_at w key.name), w);
    create = λ ns w. create (namespace_at w ns.meta.name) ns w;
    update = λ ns w. update (namespace_at w ns.meta.name) ns w;
  };
  service_accounts = no_objects;
  role_bindings = no_objects;
  resource_quotas = no_objects;
  request_authentications = no_objects;
  authorization_policies = no_objects;
  list_profiles = λ w. (failed not_found, w);
  is_not_found = is_not_found;
  set_controller_reference = λ p m. found (owned_by p m);
  retry = retry;
}

pub retries : IsRetry env
retries = record { keeps = retry-keeps; ends_as = retry-ends; stops = retry-stops }

pub setter : IsReferenceSetter env
setter = record {
  keeps_name = λ p m m' e. sym (ap (λ (x : ObjectMeta). x.name) (found-inj (owned_by p m) m' e));
  keeps_namespace =
      λ p m m' e. sym (ap (λ (x : ObjectMeta). x.namespace) (found-inj (owned_by p m) m' e));
  keeps_labels =
      λ p m m' e. sym (ap (λ (x : ObjectMeta). x.labels) (found-inj (owned_by p m) m' e));
  keeps_annotations =
      λ p m m' e. sym (ap (λ (x : ObjectMeta). x.annotations) (found-inj (owned_by p m) m' e));
}

found-seen :
    (w : Store) (name : String) (x : Namespace)
    → answer (find w.log name) ≡ found x
    → (x.meta.name ≡ name) × WasStored w.log x
found-seen w name x e = elim (Option-cases (find w.log name)) [
  | inl none_there ↦ let absent : failed not_found ≡ found x = rw none_there at e in cc
  | inr (y, there) ↦
      let same : y ≡ x = found-inj y x (rw there at e) in
      find-WasStored w.log name x (there ∙ ap some same)
]

configured-distinct :
    (o : Option Configuration) (config : Config)
    → answer (configured o) ≡ found config
    → HasDistinctKeys (made config.spec.namespace.default_labels)
configured-distinct none config e = cc
configured-distinct (some c) config e =
    subst (λ (x : Config). HasDistinctKeys (made x.spec.namespace.default_labels))
      (found-inj c.config config e) c.distinct

module _ (among : Store → Store → Type 0)
    (keep : (w w' : Store) (ns : Namespace)
      → among w w'
      → WasStored w.log ns
      → WasStored w'.log ns) where
  put-IsPut : (ns : Namespace) (w : Store) → IsPut (view_among among) ns w (put ns w)
  unfolding annotation
  put-IsPut ns w = record {
    stored = stored_after w.log ns;
    is_stored = ground (arith, eq_iff ns.meta.name ns.meta.name);
    keeps_annotations = λ k v h. h;
    keeps_labels = λ k ne. refl;
    keeps_seen = λ seen h. inr h;
    keeps_others = λ name ne. ground (arith, eq_iff ns.meta.name name);
  }

  create-Attempt :
      (o : Option Namespace) (ns : Namespace) (w : Store)
      → namespace_at w ns.meta.name ≡ o
      → Attempt (view_among among) (IsCreated (view_among among) ns) w (create o ns w).1
  create-Attempt none ns w free = done w here (created free (put-IsPut ns w))
  create-Attempt (some old) ns w there = refused here

  checked-Attempt :
      (ns current : Namespace) (w : Store) (b : Bool)
      → (current.meta.resource_version == ns.meta.resource_version) ≡ b
      → namespace_at w ns.meta.name ≡ some current
      → Attempt (view_among among) (IsUpdated (view_among among) ns) w (checked b ns w).1
  checked-Attempt ns current w true same there = done w here (
      updated current there
        (ground (arith, eq_iff current.meta.resource_version ns.meta.resource_version))
        (put-IsPut ns w))
  checked-Attempt ns current w false same there = refused here

  update-Attempt :
      (o : Option Namespace) (ns : Namespace) (w : Store)
      → namespace_at w ns.meta.name ≡ o
      → Attempt (view_among among) (IsUpdated (view_among among) ns) w (update o ns w).1
  update-Attempt none ns w absent = refused here
  update-Attempt (some current) ns w there = checked-Attempt ns current w _ refl there

  pub IsApiServer-among : IsApiServer (view_among among) env
  IsApiServer-among = record {
    get_profile = λ key w. here;
    get_config = λ key w. here;
    config_labels = λ key w config e. (config, refl);
    config_distinct = λ key w config e. configured-distinct w.configuration config e;
    get_namespace = λ key w. here;
    namespace_name = λ key w ns e. (found-seen w key.name ns e).0;
    namespace_seen = λ key w ns e. (found-seen w key.name ns e).1;
    versioned = λ w ns seen. WasStored-versioned w.log ns seen;
    seen_later = λ w w' ns o seen. keep w w' ns o seen;
    same_version = λ w ns current seen there same.
        version_unique w.log current ns (find-WasStored w.log ns.meta.name current there).1 seen
          same;
    create_namespace = λ ns w. create-Attempt (namespace_at w ns.meta.name) ns w refl;
    update_namespace = λ ns w _. update-Attempt (namespace_at w ns.meta.name) ns w refl;
    update_profile = λ p w. done w here refl;
    saves_profile_only = λ p w w' name saved. ap (λ v. namespace_at v name) saved;
  }

pub reconfiguring_keeps :
    (w w' : Store) (ns : Namespace) → Reconfigures w w' → WasStored w.log ns → WasStored w'.log ns
reconfiguring_keeps w w' ns o seen = subst (λ (v : Store). WasStored v.log ns) (sym o.1) seen

pub api_server : IsApiServer view env
api_server = IsApiServer-among Reconfigures reconfiguring_keeps
