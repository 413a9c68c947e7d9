-- ===== src/Reconcile/Takeover.antt =====
-- A profile over a namespace that somebody else owns.
use kubeflow_profile_control.Prelude.{
  String, ◌≡◌, ◌≢◌, refl, false, Option, none, some, [], ◌∷◌, ◌++◌, ◌⧺◌, arith, eq_iff,
}
use kubeflow_profile_control.Api.Meta.{NamespacedName, ObjectMeta, Namespace}
use kubeflow_profile_control.Api.Profile.{Profile}
use kubeflow_profile_control.Api.Config.{Config}
use kubeflow_profile_control.Cluster.{
  Env, State, Outcome, ok, err, Error, Object, update_object, request, found, truncate_tag,
}
use kubeflow_profile_control.Cluster.Keeps.{IsReferenceSetter}
use kubeflow_profile_control.Reconcile.{
  owner_annotation, annotation, is_owner, with_condition, after_get_namespace, after_namespace,
  reconcile,
}
use kubeflow_profile_control.Reconcile.Reads.{Answers, reconcile-Answers}

abbrev pub ended : Option Error → Outcome (Unit {0})
ended none = ok tt
ended (some e) = err e

is_owner_ne : (o : Option String) (name : String) → o ≢ some name → is_owner o name ≡ false
unfolding is_owner
is_owner_ne none name h = refl
is_owner_ne (some owner) name h = ground (arith, eq_iff owner name)

-- If the profile and the config are read, the owner reference is set, and the namespace is read
-- with an `owner` annotation that is missing or is not the profile's owner, then `reconcile`
-- writes the profile once, and nothing else: as it was read, with one more condition behind the
-- others, of type `Failed` and with the message that the namespace is not the creator's. It ends with the error of that write, if any.
pub takeover_refused :
    {World : Type 0} (env : Env World)
    → IsReferenceSetter env
    → (key : NamespacedName) (s : State World) (p : Profile) (config : Config) (m : ObjectMeta)
      (ns : Namespace) (w : World)
    → Answers env key s p config m (found ns) w
    → annotation owner_annotation ns ≢ some p.spec.owner.name
    → let refused : Profile = record p {
      status = record {
        conditions =
            p.status.conditions
            ++ record {
              type = "Failed";
              status = "";
              message =
                  "namespace already exist, but not owned by profile creator " ⧺ p.spec.owner.name;
            }
              ∷ [];
      };
    } in
      let (e, w') = env.profiles.update refused w in
      reconcile env key s ≡ (
        ended e,
        record {
          world = w';
          events =
              update_object (Object.profile refused)
              ∷ request (truncate_tag "reject profile taking over existing namespace")
              ∷ s.events;
        },
      )
unfolding after_get_namespace after_namespace with_condition
takeover_refused env setter key s p config m ns w a h =
    rw (reconcile-Answers env setter a)
      (rw (is_owner_ne (annotation owner_annotation ns) p.spec.owner.name h) (ground arith))
