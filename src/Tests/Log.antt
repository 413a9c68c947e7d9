-- ===== src/Tests/Log.antt =====
-- A log of stored namespaces, in which each has a version of its own.
use Prim.Native.String.{len}
use text.Mathlib.TextPositions.{len-append}
use kubeflow_profile_control.Prelude.{
  String, arith, ◌≡◌, ◌≢◌, refl, sym, ap, ◌∙◌, Option, none, some, ◌==◌, ◌⧺◌, eq_iff, if◌then◌else◌,
  Bool-cases, inl, inr, ◌⊎◌, List, [], ◌∷◌, ◌<◌,
}
use kubeflow_profile_control.Api.Meta.{Namespace}
use kubeflow_profile_control.Api.Profile.{Profile}
use kubeflow_profile_control.Api.Config.{Config}
use kubeflow_profile_control.Labels.{made}
use kubeflow_profile_control.Prelude.Dict.{HasDistinctKeys}
use kubeflow_profile_control.Managed.Equal.{differ}

-- A Config with each key once.
pub record Configuration : Type 0 where
  pub config : Config
  pub distinct : HasDistinctKeys (made config.spec.namespace.default_labels)

-- The log holds every namespace that was stored, the last one first.
pub record Store : Type 0 where
  pub profile : Option Profile
  pub configuration : Option Configuration
  pub log : List Namespace

abbrev pub configured : Option Configuration → Option Config
configured none = none
configured (some c) = some c.config

-- The version that comes after a log: a letter for each entry, and one more.
abbrev pub version : List Namespace → String
version [] = "v"
version (_ ∷ older) = "v" ⧺ version older

abbrev pub stored_after : List Namespace → Namespace → Namespace
stored_after older ns = record ns { meta = record ns.meta { resource_version = version older } }

abbrev pub find : List Namespace → String → Option Namespace
find [] name = none
find (ns ∷ older) name =
    if ns.meta.name == name then some (stored_after older ns) else find older name

abbrev pub namespace_at : Store → String → Option Namespace
namespace_at w name = find w.log name

abbrev pub WasStored : List Namespace → Namespace → Type 0
WasStored [] x = ⊥
WasStored (ns ∷ older) x = (x ≡ stored_after older ns) ⊎ WasStored older x

some-inj : {A : Type 0} {x y : A} → some x ≡ some y → x ≡ y
some-inj e = cc

pub find-WasStored :
    (log : List Namespace) (name : String) (x : Namespace)
    → find log name ≡ some x
    → (x.meta.name ≡ name) × WasStored log x
find-WasStored [] name x e = cc
find-WasStored (ns ∷ older) name x e = elim (Bool-cases (ns.meta.name == name)) [
  | inl same ↦
      let there : stored_after older ns ≡ x = some-inj (rw same at e) in
      (
        ap (λ (n : Namespace). n.meta.name) (sym there) ∙ ground (arith, eq_iff ns.meta.name name),
        inl (sym there),
      )
  | inr other ↦ let (named, seen) = find-WasStored older name x (rw other at e) in (named, inr seen)
]

version_shorter :
    (log : List Namespace) (x : Namespace)
    → WasStored log x
    → len x.meta.resource_version < len (version log)
version_shorter [] x h = elim h [ ]
version_shorter (ns ∷ older) x (inl e) =
    let shown : x.meta.resource_version ≡ version older =
      ap (λ (n : Namespace). n.meta.resource_version) e in
    let longer = len-append "v" (version older) in rw shown (omega arith)
version_shorter (ns ∷ older) x (inr h) =
    let before = version_shorter older x h in
    let longer = len-append "v" (version older) in omega arith

pub version_unique :
    (log : List Namespace) (x y : Namespace)
    → WasStored log x
    → WasStored log y
    → x.meta.resource_version ≡ y.meta.resource_version
    → x ≡ y
version_unique [] x y h h' same = elim h [ ]
version_unique (ns ∷ older) x y (inl e) (inl e') same = e ∙ sym e'
version_unique (ns ∷ older) x y (inr h) (inr h') same = version_unique older x y h h' same
version_unique (ns ∷ older) x y (inl e) (inr h) same =
    let before = version_shorter older y h in
    let shown : y.meta.resource_version ≡ version older =
      sym same ∙ ap (λ (n : Namespace). n.meta.resource_version) e in
    let lens = ap len shown in let impossible : ⊥ = omega arith in elim impossible [ ]
version_unique (ns ∷ older) x y (inr h) (inl e) same =
    let before = version_shorter older x h in
    let shown : x.meta.resource_version ≡ version older =
      same ∙ ap (λ (n : Namespace). n.meta.resource_version) e in
    let lens = ap len shown in let impossible : ⊥ = omega arith in elim impossible [ ]

version_ne : (log : List Namespace) → version log ≢ ""
version_ne [] e = differ "v" "" refl e
version_ne (_ ∷ older) e = let lens = sym (len-append "v" (version older)) ∙ ap len e in omega arith

pub WasStored-versioned :
    (log : List Namespace) (x : Namespace) → WasStored log x → x.meta.resource_version ≢ ""
WasStored-versioned [] x h q = elim h [ ]
WasStored-versioned (ns ∷ older) x (inl e) q =
    version_ne older (sym (ap (λ (n : Namespace). n.meta.resource_version) e) ∙ q)
WasStored-versioned (ns ∷ older) x (inr h) q = WasStored-versioned older x h q
