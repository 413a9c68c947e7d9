-- ===== src/Copies.antt =====
-- The memory that the deep copies of apis/*/*/zz_generated.deepcopy.go work on: cells behind
-- pointers, slices and maps, and the two shapes of code that those files are made of.
pub mod Laws
pub mod Slices
pub mod Profiles
pub mod Configs
pub mod Older
use kubeflow_profile_control.Prelude.{ℕ, zero, suc, Option, none, some, List, [], ◌∷◌, ◌++◌, length}

-- A pointer, a slice or a map that is not nil is the address of a cell. Memory only grows, and an
-- address is the cell's place in it.
abbrev pub Addr : Type 0
Addr = ℕ

abbrev pub Heap : Type 0 → Type 0
Heap Cell = List Cell

module _ {Cell : Type 0} where
  abbrev pub cell_at : Heap Cell → Addr → Option Cell
  cell_at [] a = none
  cell_at (c ∷ h) zero = some c
  cell_at (c ∷ h) (suc a) = cell_at h a

infixl 5 ◌>>=◌
abbrev pub ◌>>=◌ : {A B : Type 0} → Option A → (A → Option B) → Option B
none >>= f = none
some a >>= f = f a

-- A type in memory, with the values that it stands for: how they are read, and the type's
-- `DeepCopyInto`, which gives the copy and the memory after it. A pointer to a cell that is not
-- there, or that holds another type, is no case of a Go program: it has no value and no copy.
pub record Copier (Cell R V : Type 0) : Type 0 where
  pub value : Heap Cell → R → Option V
  pub copy_into : R → Heap Cell → Option (R × Heap Cell)

-- The cells that hold one type.
pub record Kind (Cell R : Type 0) : Type 0 where
  pub wrap : R → Cell
  pub unwrap : Cell → Option R

module _ {Cell : Type 0} where
  -- `*out = *in`, for a type without pointers.
  unfoldable pub plain : {R : Type 0} → Copier Cell R R
  plain = record { value = λ h r. some r; copy_into = λ r h. some (r, h) }

  -- One field after another.
  unfoldable pub both :
      {R S V W : Type 0} → Copier Cell R V → Copier Cell S W → Copier Cell (R × S) (V × W)
  both c d = record {
    value = λ h (r, s). do
      v ← c.value h r
      w ← d.value h s
      some (v, w);
    copy_into = λ (r, s) h. do
      (r', h₁) ← c.copy_into r h
      (s', h₂) ← d.copy_into s h₁
      some ((r', s'), h₂);
  }

  -- `*out = *in`, then the fields that need a copy of their own.
  unfoldable pub struct :
      {R F V W : Type 0} → Copier Cell F W → (R → F) → (R → F → R) → (R → W → V) → Copier Cell R V
  struct c fields with_fields of = record {
    value = λ h r. do
      w ← c.value h (fields r)
      some (of r w);
    copy_into = λ r h. do
      (f, h') ← c.copy_into (fields r) h
      some (with_fields r f, h');
  }

  unfoldable pub load : {R : Type 0} → Kind Cell R → Heap Cell → Addr → Option R
  load k h a = do c ← cell_at h a; k.unwrap c

  -- `if in.F != nil { *out = new(T); (*in).DeepCopyInto(*out) }`, which is `make` and a loop or a
  -- `copy` for a slice or a map; and `DeepCopy`, which gives nil for nil. The cell is filled before
  -- anything else can see it, and so is counted from when it is full.
  unfoldable pub pointer :
      {R V : Type 0} → Kind Cell R → Copier Cell R V → Copier Cell (Option Addr) (Option V)
  unfolding load
  pointer k c = record {
    value = λ h p. elim p [
      | none ↦ some none
      | some a ↦ do r ← load k h a; v ← c.value h r; some (some v)
    ];
    copy_into = λ p h. elim p [
      | none ↦ some (none, h)
      | some a ↦ do
        r ← load k h a
        (r', h') ← c.copy_into r h
        some (some (length h'), h' ++ k.wrap r' ∷ [])
    ];
  }

  values : {R V : Type 0} → (Heap Cell → R → Option V) → Heap Cell → List R → Option (List V)
  values read h [] = some []
  values read h (r ∷ rs) = do v ← read h r; vs ← values read h rs; some (v ∷ vs)

  copies :
      {R : Type 0}
      → (R → Heap Cell → Option (R × Heap Cell))
      → List R
      → Heap Cell
      → Option (List R × Heap Cell)
  copies copy [] h = some ([], h)
  copies copy (r ∷ rs) h = do
    (r', h₁) ← copy r h
    (rs', h₂) ← copies copy rs h₁
    some (r' ∷ rs', h₂)

  -- `for i := range *in { (*in)[i].DeepCopyInto(&(*out)[i]) }`
  unfoldable pub each : {R V : Type 0} → Copier Cell R V → Copier Cell (List R) (List V)
  unfolding values copies
  each c = record { value = values c.value; copy_into = copies c.copy_into }
