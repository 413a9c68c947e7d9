-- ===== src/Copies/Laws.antt =====
-- What makes a copy deep, for the shapes of Copies.
use mathlib.Core.List.{append_assoc, append-nil}
use kubeflow_profile_control.Prelude.{
  zero, suc, arith, ◌≡◌, refl, sym, ap, ◌∙◌, ◌+◌, Option, none, some, [], ◌∷◌, ◌++◌, length,
}
use kubeflow_profile_control.Copies.{
  Addr, Heap, cell_at, Copier, Kind, ◌>>=◌, plain, both, struct, load, pointer,
}

-- The copy of a value: memory grows by `new`, and whatever is then written over the cells that
-- were there before, the copy has the value still.
pub record IsCopied {Cell R V : Type 0} (c : Copier Cell R V) (h : Heap Cell) (r : R) (v : V)
    : Type 0 where
  pub copy : R
  pub new : Heap Cell
  pub copies : c.copy_into r h ≡ some (copy, h ++ new)
  pub independent : (g : Heap Cell) → length g ≡ length h → c.value (g ++ new) copy ≡ some v

-- All that has a value is copied so, and has the value still, whatever the cells that are new
-- hold.
pub record IsDeep {Cell R V : Type 0} (c : Copier Cell R V) : Type 0 where
  pub stays :
      (h new : Heap Cell) (r : R) (v : V) → c.value h r ≡ some v → c.value (h ++ new) r ≡ some v
  pub copied : (h : Heap Cell) (r : R) (v : V) → c.value h r ≡ some v → IsCopied c h r v

-- A deep copy and what it copies, each whatever becomes of the other's cells.
pub IsDeep-independent :
    {Cell R V : Type 0} (c : Copier Cell R V)
    → IsDeep c
    → (h over behind : Heap Cell) (r : R) (v : V) → length over ≡ length h
    → c.value h r ≡ some v
    → (copy : R) × (new : Heap Cell) × (c.copy_into r h ≡ some (copy, h ++ new))
      × (c.value (over ++ new) copy ≡ some v)
      × (c.value (h ++ behind) r ≡ some v)
IsDeep-independent c deep h over behind r v l e =
    let copied = deep.copied h r v e in
    (copied.copy, copied.new, copied.copies, copied.independent over l, deep.stays h behind r v e)

pub some_of_bind :
    {A B : Type 0} (o : Option A) (f : A → Option B) (b : B)
    → (o >>= f) ≡ some b
    → (a : A) × (o ≡ some a) × (f a ≡ some b)
some_of_bind none f b e = cc
some_of_bind (some a) f b e = (a, refl, e)

module _ {Cell : Type 0} where
  pub length-append : (g h : Heap Cell) → length (g ++ h) ≡ length g + length h
  length-append [] h = omega arith
  length-append (c ∷ g) h = ap suc (length-append g h) ∙ omega arith

  cell_at-append :
      (h new : Heap Cell) (a : Addr) (c : Cell)
      → cell_at h a ≡ some c
      → cell_at (h ++ new) a ≡ some c
  cell_at-append [] new a c e = cc
  cell_at-append (d ∷ h) new zero c e = e
  cell_at-append (d ∷ h) new (suc a) c e = cell_at-append h new a c e

  cell_at-length : (h new : Heap Cell) (c : Cell) → cell_at (h ++ c ∷ new) (length h) ≡ some c
  cell_at-length [] new c = refl
  cell_at-length (d ∷ h) new c = cell_at-length h new c

  pub plain-IsDeep : {R : Type 0} → IsDeep (plain {Cell = Cell} {R = R})
  unfolding plain
  plain-IsDeep = record {
    stays = λ h new r v e. e;
    copied = λ h r v e. record {
      copy = r;
      new = [];
      copies = ap (λ g. some (r, g)) (sym (append-nil h));
      independent = λ g _. e;
    };
  }

  module _ {R F V W : Type 0} (c : Copier Cell F W) (fields : R → F) (with_fields : R → F → R)
      (of : R → W → V) where
    -- The fields that are put in are the fields, and nothing else changes.
    abbrev pub IsStruct : Type 0
    IsStruct =
        ((r : R) (f : F) → fields (with_fields r f) ≡ f)
        × ((r : R) (f : F) (w : W) → of (with_fields r f) w ≡ of r w)

    pub struct-IsDeep : IsStruct → IsDeep c → IsDeep (struct c fields with_fields of)
    unfolding struct
    struct-IsDeep (same, rest) deep = record {
      stays = λ h new r v e.
          let (w, read, made) = some_of_bind (c.value h (fields r)) (λ w. some (of r w)) v e in
          rw (deep.stays h new (fields r) w read) made;
      copied = λ h r v e.
          let (w, read, made) = some_of_bind (c.value h (fields r)) (λ w. some (of r w)) v e in
          let copied = deep.copied h (fields r) w read in
          record {
            copy = with_fields r copied.copy;
            new = copied.new;
            copies = rw copied.copies refl;
            independent = λ g l.
                rw (same r copied.copy)
                  (rw (copied.independent g l) (ap some (rest r copied.copy w) ∙ made));
          };
    }

  -- What is new after two copies, from the first heap and from the heap between them.
  module _ (h n m : Heap Cell) where
    pub two_new : (h ++ n) ++ m ≡ h ++ (n ++ m)
    two_new = append_assoc h n m

    pub same_length : (g : Heap Cell) → length g ≡ length h → length (g ++ n) ≡ length (h ++ n)
    same_length g l = length-append g n ∙ ap (λ k. k + length n) l ∙ sym (length-append h n)

  pub both-IsDeep :
      {R S V W : Type 0} (c : Copier Cell R V) (d : Copier Cell S W)
      → IsDeep c
      → IsDeep d
      → IsDeep (both c d)
  unfolding both
  both-IsDeep c d deep_c deep_d = record {
    stays = λ h new (r, s) v e.
        let (a, read_a, e') = some_of_bind (c.value h r) _ v e in
        let (b, read_b, made) = some_of_bind (d.value h s) _ v e' in
        rw (deep_c.stays h new r a read_a) (rw (deep_d.stays h new s b read_b) made);
    copied = λ h (r, s) v e.
        let (a, read_a, e') = some_of_bind (c.value h r) _ v e in
        let (b, read_b, made) = some_of_bind (d.value h s) _ v e' in
        let first = deep_c.copied h r a read_a in
        let second = deep_d.copied (h ++ first.new) s b (deep_d.stays h first.new s b read_b) in
        record {
          copy = (first.copy, second.copy);
          new = first.new ++ second.new;
          copies = rw first.copies (
              rw second.copies
                (ap (λ g. some ((first.copy, second.copy), g)) (two_new h first.new second.new)));
          independent = λ g l.
              let kept =
                deep_c.stays (g ++ first.new) second.new first.copy a (first.independent g l) in
              rw (sym (two_new g first.new second.new)) (
                rw kept (
                  rw (second.independent (g ++ first.new) (same_length h first.new second.new g l))
                    made));
        };
  }

  abbrev pub IsKind : {R : Type 0} → Kind Cell R → Type 0
  IsKind {R} k = (r : R) → k.unwrap (k.wrap r) ≡ some r

  module _ {R V : Type 0} (k : Kind Cell R) (c : Copier Cell R V) (deep : IsDeep c) where
    pointer-stays :
        (h new : Heap Cell) (p : Option Addr) (v : Option V)
        → (pointer k c).value h p ≡ some v
        → (pointer k c).value (h ++ new) p ≡ some v
    unfolding pointer load
    pointer-stays h new none v e = e
    pointer-stays h new (some a) v e =
        let (r, loaded, e') = some_of_bind (load k h a) _ v e in
        let (cell, there, holds) = some_of_bind (cell_at h a) k.unwrap r loaded in
        let (w, read, made) = some_of_bind (c.value h r) _ v e' in
        rw (cell_at-append h new a cell there) (rw holds (rw (deep.stays h new r w read) made))

    -- What is read through a new pointer, behind any memory of the same size.
    pointer-new :
        (g h new : Heap Cell) (r : R) (v : V)
        → IsKind k
        → length (g ++ new) ≡ length (h ++ new)
        → c.value (g ++ new) r ≡ some v
        → (pointer k c).value (g ++ (new ++ k.wrap r ∷ [])) (some (length (h ++ new)))
          ≡ some (some v)
    unfolding pointer load
    pointer-new g h new r v kind l read =
        let kept = deep.stays (g ++ new) (k.wrap r ∷ []) r v read in
        rw (sym (append_assoc g new (k.wrap r ∷ [])))
          (rw (sym l) (rw (cell_at-length (g ++ new) [] (k.wrap r)) (rw (kind r) (rw kept refl))))

    pointer-IsCopied :
        IsKind k
        → (h : Heap Cell) (p : Option Addr) (v : Option V) → (pointer k c).value h p ≡ some v
        → IsCopied (pointer k c) h p v
    unfolding pointer load
    pointer-IsCopied kind h none v e = record {
      copy = none;
      new = [];
      copies = ap (λ g. some (none, g)) (sym (append-nil h));
      independent = λ g _. e;
    }
    pointer-IsCopied kind h (some a) v e =
        let (r, loaded, e') = some_of_bind (load k h a) _ v e in
        let (w, read, made) = some_of_bind (c.value h r) _ v e' in
        let copied = deep.copied h r w read in
        record {
          copy = some (length (h ++ copied.new));
          new = copied.new ++ k.wrap copied.copy ∷ [];
          copies = rw loaded (
              rw copied.copies (
                ap (λ g. some (some (length (h ++ copied.new)), g))
                  (append_assoc h copied.new (k.wrap copied.copy ∷ []))));
          independent = λ g l.
              pointer-new g h copied.new copied.copy w kind (same_length h copied.new [] g l)
                (copied.independent g l)
              ∙ made;
        }

    pub pointer-IsDeep : IsKind k → IsDeep (pointer k c)
    pointer-IsDeep kind = record { stays = pointer-stays; copied = pointer-IsCopied kind }
