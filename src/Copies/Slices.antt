-- ===== src/Copies/Slices.antt =====
-- Deep copies of the elements of a slice.
use mathlib.Core.Path.{subst}
use mathlib.Core.List.{append-nil}
use kubeflow_profile_control.Prelude.{◌≡◌, refl, sym, ap, some, List, [], ◌∷◌, ◌++◌}
use kubeflow_profile_control.Copies.{Heap, Copier, values, copies, each}
use kubeflow_profile_control.Copies.Laws.{IsCopied, IsDeep, two_new, same_length, some_of_bind}

some-inj : {A : Type 0} {x y : A} → some x ≡ some y → x ≡ y
some-inj e = cc

module _ {Cell : Type 0} where
  module _ {R V : Type 0} (c : Copier Cell R V) (deep : IsDeep c) where
    each-stays :
        (h new : Heap Cell) (rs : List R) (vs : List V)
        → (each c).value h rs ≡ some vs
        → (each c).value (h ++ new) rs ≡ some vs
    unfolding each values
    each-stays h new [] vs e = e
    each-stays h new (r ∷ rs) vs e =
        let (v, read, e') = some_of_bind (c.value h r) _ vs e in
        let (ws, reads, made) = some_of_bind (values c.value h rs) _ vs e' in
        rw (deep.stays h new r v read) (rw (each-stays h new rs ws reads) made)

    value-cons :
        (h : Heap Cell) (r : R) (rs : List R) (v : V) (vs : List V)
        → c.value h r ≡ some v
        → (each c).value h rs ≡ some vs
        → (each c).value h (r ∷ rs) ≡ some (v ∷ vs)
    unfolding each values
    value-cons h r rs v vs e es = rw e (rw es refl)

    cons-IsCopied :
        (h : Heap Cell) (r : R) (rs : List R) (v : V) (vs : List V) (first : IsCopied c h r v)
        → IsCopied (each c) (h ++ first.new) rs vs
        → IsCopied (each c) h (r ∷ rs) (v ∷ vs)
    unfolding each copies
    cons-IsCopied h r rs v vs first rest = record {
      copy = first.copy ∷ rest.copy;
      new = first.new ++ rest.new;
      copies = rw first.copies (
          rw rest.copies
            (ap (λ g. some (first.copy ∷ rest.copy, g)) (two_new h first.new rest.new)));
      independent = λ g l.
          subst (λ m. (each c).value m (first.copy ∷ rest.copy) ≡ some (v ∷ vs))
            (two_new g first.new rest.new)
            (value-cons _ first.copy rest.copy v vs
              (deep.stays (g ++ first.new) rest.new first.copy v (first.independent g l))
              (rest.independent (g ++ first.new) (same_length h first.new rest.new g l)));
    }

    each-IsCopied :
        (h : Heap Cell) (rs : List R) (vs : List V)
        → (each c).value h rs ≡ some vs
        → IsCopied (each c) h rs vs
    unfolding each values copies
    each-IsCopied h [] vs e = record {
      copy = [];
      new = [];
      copies = ap (λ g. some ([], g)) (sym (append-nil h));
      independent = λ g _. e;
    }
    each-IsCopied h (r ∷ rs) vs e =
        let (v, read, e') = some_of_bind (c.value h r) _ vs e in
        let (ws, reads, made) = some_of_bind (values c.value h rs) _ vs e' in
        let first = deep.copied h r v read in
        subst (IsCopied (each c) h (r ∷ rs)) (some-inj made) (
          cons-IsCopied h r rs v ws first
            (each-IsCopied (h ++ first.new) rs ws (each-stays h first.new rs ws reads)))

    pub each-IsDeep : IsDeep (each c)
    each-IsDeep = record { stays = each-stays; copied = each-IsCopied }
