-- ===== src/Tests/Retry.antt =====
-- A retry that tries anew after an error, and at most so often, over any surroundings.
use kubeflow_profile_control.Prelude.{ℕ, zero, suc, ◌≡◌, ap}
use kubeflow_profile_control.Api.Meta.{Namespace}
use kubeflow_profile_control.Cluster.{Act, State, Outcome, ok, err, panic}

module _ {World : Type 0} where
  abbrev again : {A : Type 0} → Outcome A × State World → Act World A → Outcome A × State World
  again (ok a, t) f = (ok a, t)
  again (err e, t) f = f t
  again (panic, t) f = (panic, t)

  abbrev pub retry : ℕ → Act World Namespace → Act World Namespace
  retry zero op s = op s
  retry (suc n) op s = again (op s) (retry n op)

  again-keeps :
      {A : Type 0} (P : State World → Type 0) (x : Outcome A × State World) (f : Act World A)
      → P x.1
      → ((t : State World) → P t → P (f t).1)
      → P (again x f).1
  again-keeps P (ok a, t) f h k = h
  again-keeps P (err e, t) f h k = k t h
  again-keeps P (panic, t) f h k = h

  again-ends :
      {A : Type 0} (Q : Outcome A → Type 0) (x : Outcome A × State World) (f : Act World A)
      → Q x.0
      → ((t : State World) → Q (f t).0)
      → Q (again x f).0
  again-ends Q (ok a, t) f h k = h
  again-ends Q (err e, t) f h k = k t
  again-ends Q (panic, t) f h k = h

  pub retry-keeps :
      (P : State World → Type 0) (n : ℕ) (op : Act World Namespace)
      → ((s : State World) → P s → P (op s).1)
      → (s : State World) → P s
      → P (retry n op s).1
  retry-keeps P zero op k s h = k s h
  retry-keeps P (suc n) op k s h = again-keeps P (op s) (retry n op) (k s h) (retry-keeps P n op k)

  pub retry-ends :
      (Q : Outcome Namespace → Type 0) (n : ℕ) (op : Act World Namespace)
      → ((s : State World) → Q (op s).0)
      → (s : State World) → Q (retry n op s).0
  retry-ends Q zero op k s = k s
  retry-ends Q (suc n) op k s = again-ends Q (op s) (retry n op) (k s) (retry-ends Q n op k)

  pub retry-stops :
      (n : ℕ) (op : Act World Namespace) (s t : State World) (ns : Namespace)
      → op s ≡ (ok ns, t)
      → retry n op s ≡ (ok ns, t)
  retry-stops zero op s t ns e = e
  retry-stops (suc n) op s t ns e = ap (λ x. again x (retry n op)) e
