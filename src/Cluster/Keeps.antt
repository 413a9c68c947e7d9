-- ===== src/Cluster/Keeps.antt =====
-- What the controller relies on of the code that `Env` stands for, and invariants of actions.
use kubeflow_profile_control.Prelude.{ℕ, ◌≡◌, All, ◌⊎◌, inl, inr, refl}
use kubeflow_profile_control.Api.Meta.{ObjectMeta, Namespace}
use kubeflow_profile_control.Api.Profile.{Profile}
use kubeflow_profile_control.Cluster.{
  Env, Act, State, Outcome, Event, Error, Reply, found, failed, ok, err, panic, continue, ◌>>=◌,
}

-- `SetControllerReference` adds an owner reference to the metadata and changes nothing else that
-- the controller reads.
pub record IsReferenceSetter {World : Type 0} (env : Env World) : Type 0 where
  pub keeps_name :
      (p : Profile) (m m' : ObjectMeta)
      → env.set_controller_reference p m ≡ found m'
      → m'.name ≡ m.name
  pub keeps_namespace :
      (p : Profile) (m m' : ObjectMeta)
      → env.set_controller_reference p m ≡ found m'
      → m'.namespace ≡ m.namespace
  pub keeps_labels :
      (p : Profile) (m m' : ObjectMeta)
      → env.set_controller_reference p m ≡ found m'
      → m'.labels ≡ m.labels
  pub keeps_annotations :
      (p : Profile) (m m' : ObjectMeta)
      → env.set_controller_reference p m ≡ found m'
      → m'.annotations ≡ m.annotations

-- `backoff.Retry` does nothing but call its operation and wait: what one call keeps it keeps, it
-- ends the way that a call ended, and it stops at the first call that succeeds.
pub record IsRetry {World : Type 0} (env : Env World) : Type 1 where
  pub keeps :
      (P : State World → Type 0) (n : ℕ) (op : Act World Namespace)
      → ((s : State World) → P s → P (op s).1)
      → (s : State World) → P s
      → P (env.retry n op s).1
  pub ends_as :
      (Q : Outcome Namespace → Type 0) (n : ℕ) (op : Act World Namespace)
      → ((s : State World) → Q (op s).0)
      → (s : State World) → Q (env.retry n op s).0
  pub stops :
      (n : ℕ) (op : Act World Namespace) (s t : State World) (ns : Namespace)
      → op s ≡ (ok ns, t)
      → env.retry n op s ≡ (ok ns, t)

-- All events so far satisfy `P`.
abbrev pub Emits : {World : Type 0} → (Event → Type 0) → State World → Type 0
Emits P s = All P s.events

module _ {World : Type 0} where
  -- The action keeps the property, however it ends.
  abbrev pub Keeps : {A : Type 0} → (State World → Type 0) → Act World A → Type 0
  Keeps P m = (s : State World) → P s → P (m s).1

  pub Keeps-bind :
      {A B : Type 0} (P : State World → Type 0) (m : Act World A) (f : A → Act World B)
      → Keeps P m
      → ((a : A) → Keeps P (f a))
      → Keeps P (m >>= f)
  Keeps-bind {A} P m f km kf s h = ends (m s).0 (m s).1 (km s h)
    where
      ends : (r : Outcome A) (t : State World) → P t → P (continue r f t).1
      ends (ok a) t k = kf a t k
      ends (err e) t k = k
      ends panic t k = k

pub Reply-cases :
    {A : Type 0} (r : Reply A) → ((a : A) × (r ≡ found a)) ⊎ ((e : Error) × (r ≡ failed e))
Reply-cases (found a) = inl (a, refl)
Reply-cases (failed e) = inr (e, refl)
