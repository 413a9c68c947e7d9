-- ===== src/Cluster.antt =====
-- What the controller asks of its surroundings, and the actions that its methods are made of. The
-- API server's client (controller-runtime), owner references and the retry helper are no code of
-- this repository: they are the parameter `Env`. The counters are in Metrics.
pub mod Keeps
pub mod Tags
use Prim.Native.String.{len, slice}
use kubeflow_profile_control.Prelude.{
  ℕ, String, ◌≡◌, ◌≢◌, Bool, Option, none, some, List, [], ◌∷◌, ltb, if◌then◌else◌,
}
use kubeflow_profile_control.Api.Meta.{NamespacedName, ObjectMeta, Namespace, Unstructured}
use kubeflow_profile_control.Api.Profile.{Profile, ProfileList}
use kubeflow_profile_control.Api.Config.{Config}
use kubeflow_profile_control.Api.Access.{
  ServiceAccount, RoleBinding, ResourceQuota, RequestAuthentication, AuthorizationPolicy,
}

-- A Go `error`: one of the client's, with its reason and message; one made by `fmt.Errorf` or by
-- another library, with its message; or a `*ConditionExistError` of plugin_iam.go.
pub data Error : Type 0 where
  status_error : String → String → Error
  message : String → Error
  condition_exist_error : Error

-- How a method ends: it returns, returns an error, or panics.
pub data Outcome {ℓ} (A : Type ℓ) : Type ℓ where
  ok : A → Outcome A
  err : Error → Outcome A
  panic : Outcome A

-- What the client answers to a read.
pub data Reply {ℓ} (A : Type ℓ) : Type ℓ where
  found : A → Reply A
  failed : Error → Reply A

pub data Object : Type 0 where
  namespace : Namespace → Object
  profile : Profile → Object
  service_account : ServiceAccount → Object
  role_binding : RoleBinding → Object
  resource_quota : ResourceQuota → Object
  request_authentication : RequestAuthentication → Object
  authorization_policy : AuthorizationPolicy → Object

-- What a method does that its surroundings can see: the writes that it sends to the API server,
-- and the counters that it increments, by their labels.
pub data Event : Type 0 where
  create_object : Object → Event
  update_object : Object → Event
  apply_object : Unstructured → Event
  request : String → Event
  request_failure : String → String → Event

-- The surroundings, and the events so far, the latest first.
pub record State (World : Type 0) : Type 0 where
  pub world : World
  pub events : List Event

abbrev pub Act : Type 0 → Type 0 → Type 0
Act World A = State World → Outcome A × State World

-- `client.Client` at one kind of object. Anything may happen to the world between two calls, so
-- reads take it and give it back too.
pub record ObjectClient (World A : Type 0) : Type 0 where
  pub get : NamespacedName → World → Reply A × World
  pub create : A → World → Option Error × World
  pub update : A → World → Option Error × World

pub record Env (World : Type 0) : Type 0 where
  pub profiles : ObjectClient World Profile
  pub configs : ObjectClient World Config
  pub namespaces : ObjectClient World Namespace
  pub service_accounts : ObjectClient World ServiceAccount
  pub role_bindings : ObjectClient World RoleBinding
  pub resource_quotas : ObjectClient World ResourceQuota
  pub request_authentications : ObjectClient World RequestAuthentication
  pub authorization_policies : ObjectClient World AuthorizationPolicy
  pub list_profiles : World → Reply ProfileList × World
  -- `apierrors.IsNotFound`
  pub is_not_found : Error → Bool
  -- `controllerutil.SetControllerReference(owner, object, scheme)`, on the object's metadata
  pub set_controller_reference : Profile → ObjectMeta → Reply ObjectMeta
  -- `backoff.Retry(operation, WithMaxRetries(…, n))`
  pub retry : ℕ → Act World Namespace → Act World Namespace

module _ {World : Type 0} where
  module _ {ℓ} {A : Type ℓ} where
    abbrev pub pure : A → State World → Outcome A × State World
    pure a s = (ok a, s)

    abbrev pub fail : Error → State World → Outcome A × State World
    fail e s = (err e, s)

    abbrev pub crash : State World → Outcome A × State World
    crash s = (panic, s)

  abbrev pub continue : {A B : Type 0} → Outcome A → (A → Act World B) → Act World B
  continue (ok a) f s = f a s
  continue (err e) f s = (err e, s)
  continue panic f s = (panic, s)

  infixl 5 ◌>>=◌ ◌>>◌
  abbrev pub ◌>>=◌ : {A B : Type 0} → Act World A → (A → Act World B) → Act World B
  ◌>>=◌ m f s = let (r, s') = m s in continue r f s'

  abbrev pub ◌>>◌ : {B : Type 0} → Act World (Unit {0}) → Act World B → Act World B
  m >> k = m >>= λ _. k

  abbrev pub emit : Event → Act World (Unit {0})
  emit e s = (ok tt, record s { events = e ∷ s.events })

  module _ {A : Type 0} (client : ObjectClient World A) where
    -- `err := r.Get(ctx, key, object)`
    abbrev pub get : NamespacedName → Act World (Reply A)
    get key s = let (r, w) = client.get key s.world in (ok r, record s { world = w })

    -- `err := r.Create(ctx, object)`, and `r.Update(ctx, object)`
    abbrev pub create : (A → Object) → A → Act World (Option Error)
    create kind a s =
        let (e, w) = client.create a s.world in
        (ok e, record { world = w; events = create_object (kind a) ∷ s.events })

    abbrev pub update : (A → Object) → A → Act World (Option Error)
    update kind a s =
        let (e, w) = client.update a s.world in
        (ok e, record { world = w; events = update_object (kind a) ∷ s.events })

  -- `r.Patch(ctx, object, client.Apply, client.ForceOwnership, …)`
  abbrev pub apply :
      (Unstructured → World → Option Error × World) → Unstructured → Act World (Option Error)
  apply patch object s =
      let (e, w) = patch object s.world in
      (ok e, record { world = w; events = apply_object object ∷ s.events })

  -- A call of another library that works on the world.
  abbrev pub perform : {A : Type 0} → (World → A × World) → Act World A
  perform call s = let (a, w) = call s.world in (ok a, record s { world = w })

  -- `if err != nil { return err }; return nil`
  abbrev pub return_error : Option Error → Act World (Unit {0})
  return_error none = pure tt
  return_error (some e) = fail e

abbrev pub severity_major : String
severity_major = "major"

-- `MAX_TAG_LEN` of controllers/kubeflow.org/monitoring.go
abbrev pub max_tag_len : ℕ
max_tag_len = 30

-- Every tag of this code is a literal in ASCII, where a character is a byte.
unfoldable pub truncate_tag : String → String
truncate_tag kind = if ltb max_tag_len (len kind) then slice kind 0 max_tag_len else kind

module _ {World : Type 0} where
  abbrev pub inc_request_counter : String → Act World (Unit {0})
  inc_request_counter kind = emit (request (truncate_tag kind))

  abbrev pub inc_request_error_counter : String → String → Act World (Unit {0})
  inc_request_error_counter kind severity = emit (request_failure (truncate_tag kind) severity)
