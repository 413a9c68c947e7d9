-- ===== src/Slices/Laws.antt =====
-- What `contains_string` and `remove_string` do to one another and to the order of a slice.
use kubeflow_profile_control.Prelude.{
  String, ◌≡◌, refl, true, false, List, [], ◌∷◌, ◌++◌, arith, ◌==◌, eq_iff, if◌then◌else◌,
}
use kubeflow_profile_control.Slices.{contains_string, remove_string}

pub contains_string-append :
    (xs : List String) (s t : String)
    → contains_string (xs ++ s ∷ []) t ≡ (if s == t then true else contains_string xs t)
unfolding contains_string
contains_string-append [] s t = refl
contains_string-append (x ∷ xs) s t = ground (arith, contains_string-append xs s t)

-- Removing a string takes out all its occurrences and no other string.
pub contains_string-remove_string :
    (xs : List String) (s t : String)
    → contains_string (remove_string xs s) t ≡ (if s == t then false else contains_string xs t)
unfolding contains_string remove_string
contains_string-remove_string [] s t = ground arith
contains_string-remove_string (x ∷ xs) s t =
    ground (arith, eq_iff x s, eq_iff x t, eq_iff s t, contains_string-remove_string xs s t)

pub remove_string_absent :
    (xs : List String) (s : String) → contains_string xs s ≡ false → remove_string xs s ≡ xs
unfolding contains_string remove_string
remove_string_absent [] s h = refl
remove_string_absent (x ∷ xs) s h = ground (arith, remove_string_absent xs s)

pub remove_string-append :
    (xs ys : List String) (s : String)
    → remove_string (xs ++ ys) s ≡ remove_string xs s ++ remove_string ys s
unfolding remove_string
remove_string-append [] ys s = refl
remove_string-append (x ∷ xs) ys s = ground (arith, remove_string-append xs ys s)

-- Adding a string that a slice lacks and removing it again gives the slice back.
pub remove_string_added :
    (xs : List String) (s : String)
    → contains_string xs s ≡ false
    → remove_string (xs ++ s ∷ []) s ≡ xs
unfolding contains_string remove_string
remove_string_added [] s h = ground (arith, eq_iff s s)
remove_string_added (x ∷ xs) s h = ground (arith, remove_string_added xs s)
