-- ===== src/Prelude/Dict.antt =====
-- Go's `map[string]V`: an association list, of which the program sees only the lookups.
use Prim.Native.String.{String}
use mathlib.Core.Path.{◌≡◌, refl}
use mathlib.Core.Logic.{◌⊎◌, inl, inr, ◌↔◌}
use mathlib.Core.Bool.{Bool, true, false, ◌&&◌}
use mathlib.Core.Option.{Option, none, some}
use mathlib.Core.List.{List, [], ◌∷◌}
use native.Mathlib.Omega.{arith}
use text.Mathlib.Text.{◌==◌}
use text.Mathlib.TextEquality.{eq_iff}
use kubeflow_profile_control.Prelude.Base.{if◌then◌else◌}

abbrev pub Dict {ℓ} : Type ℓ → Type ℓ
Dict V = List (String × V)

module _ {ℓ} {V : Type ℓ} where
  -- `v, ok := m[k]`
  unfoldable pub lookup : String → Dict V → Option V
  lookup wanted [] = none
  lookup wanted ((key, value) ∷ others) = if key == wanted then some value else lookup wanted others

  -- `_, ok := m[k]`
  unfoldable pub has_key : String → Dict V → Bool
  unfolding lookup
  has_key k m = elim (lookup k m) [ none ↦ false | some _ ↦ true ]

  -- `m[k] = v`
  unfoldable pub insert : String → V → Dict V → Dict V
  insert k new [] = (k, new) ∷ []
  insert k new ((key, value) ∷ others) =
      if key == k then (k, new) ∷ others else (key, value) ∷ insert k new others

  -- `delete(m, k)`
  unfoldable pub delete : String → Dict V → Dict V
  delete k [] = []
  delete k ((key, value) ∷ others) =
      let rest = delete k others in if key == k then rest else (key, value) ∷ rest

  -- The keys of a Go map are distinct, and `range` yields each once.
  abbrev pub HasDistinctKeys : Dict V → Type ℓ
  HasDistinctKeys [] = Unit
  HasDistinctKeys ((k, v) ∷ m) = (lookup k m ≡ none) × HasDistinctKeys m

  pub lookup-insert :
      (at wanted : String) (new : V) (dict : Dict V)
      → lookup wanted (insert at new dict) ≡ (if at == wanted then some new else lookup wanted dict)
  unfolding insert lookup
  lookup-insert at wanted new [] = refl
  lookup-insert at wanted new ((key, value) ∷ others) = ground (
    arith,
    eq_iff key at,
    eq_iff key wanted,
    eq_iff at wanted,
    lookup-insert at wanted new others,
  )

  pub lookup-delete :
      (k j : String) (m : Dict V) → lookup j (delete k m) ≡ (if k == j then none else lookup j m)
  unfolding lookup delete
  lookup-delete k j [] = ground arith
  lookup-delete k j ((i, w) ∷ m) =
      ground (arith, eq_iff k j, eq_iff i k, eq_iff i j, lookup-delete k j m)

-- `reflect.DeepEqual` of two maps of strings that are not nil: the same keys with the same values.
abbrev same_value : Option String → Option String → Bool
same_value none none = true
same_value (some v) (some w) = v == w
same_value _ _ = false

same_at_keys : Dict String → Dict String → Dict String → Bool
same_at_keys m n [] = true
same_at_keys m n ((k, _) ∷ keys) = same_value (lookup k m) (lookup k n) && same_at_keys m n keys

unfoldable pub deep_equal : Dict String → Dict String → Bool
unfolding same_at_keys
deep_equal m n = same_at_keys m n m && same_at_keys m n n

same_value-eq : (a b : Option String) → same_value a b ≡ true → a ≡ b
same_value-eq none none h = refl
same_value-eq (some v) (some w) h = ground (arith, eq_iff v w)
same_value-eq none (some w) h = cc
same_value-eq (some v) none h = cc

same_value_refl : (a b : Option String) → a ≡ b → same_value a b ≡ true
same_value_refl none none h = refl
same_value_refl (some v) (some w) h = ground (arith, eq_iff v w)
same_value_refl none (some w) h = cc
same_value_refl (some v) none h = cc

same_at_keys_sound :
    (m n keys : Dict String) (k : String)
    → same_at_keys m n keys ≡ true
    → (lookup k keys ≡ none) ⊎ (lookup k m ≡ lookup k n)
unfolding same_at_keys lookup
same_at_keys_sound m n [] k h = inl refl
same_at_keys_sound m n ((j, w) ∷ keys) k h =
    ground
      (arith, eq_iff j k, same_value-eq (lookup j m) (lookup j n), same_at_keys_sound m n keys k)

same_at_keys_complete :
    (m n keys : Dict String)
    → ((k : String) → lookup k m ≡ lookup k n)
    → same_at_keys m n keys ≡ true
unfolding same_at_keys
same_at_keys_complete m n [] h = refl
same_at_keys_complete m n ((j, w) ∷ keys) h =
    rw (same_value_refl (lookup j m) (lookup j n) (h j)) (same_at_keys_complete m n keys h)

-- The test holds exactly of maps that answer every lookup alike.
pub deep_equal_iff :
    (m n : Dict String) → (deep_equal m n ≡ true) ↔ ((k : String) → lookup k m ≡ lookup k n)
unfolding deep_equal
deep_equal_iff m n = (
  λ h k. elim (same_at_keys_sound m n m k (ground arith)) [
    | inr same ↦ same
    | inl free ↦ elim (same_at_keys_sound m n n k (ground arith)) [
      | inr same ↦ same
      | inl free' ↦ cc
    ]
  ],
  λ h. rw (same_at_keys_complete m n m h) (same_at_keys_complete m n n h),
)
