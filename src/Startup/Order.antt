-- ===== src/Startup/Order.antt =====
-- The order of the calls at the start, and where they end.
use kubeflow_profile_control.Prelude.{
  ◌≡◌, ◌⊎◌, refl, true, false, Option, none, some, String, List, [], ◌∷◌, ◌++◌, map, All, arith,
  ◌==◌,
}
use kubeflow_profile_control.Slices.{contains_string}
use kubeflow_profile_control.Startup.Scheme.{SchemeBuilder, scheme_builder, same_group_version}
use kubeflow_profile_control.Startup.{
  Package, Kind, Counter, register_counter, counters, Flags, manager_options, profile_controller,
  Call, add_to_scheme, new_manager, complete, add_healthz_check, add_readyz_check, start, Ending,
  returned, exited, panicked, scheme_packages, Progress, call, after_must, or_exit, started, init,
  main, program,
}

-- The calls in their order, each with the way that the program ends if it fails.
abbrev pub main_calls : Flags → List (Call × Ending)
main_calls flags =
    (new_manager (manager_options flags), exited 1)
    ∷ (complete (profile_controller flags.workload_identity), exited 1)
    ∷ (add_healthz_check, exited 1)
    ∷ (add_readyz_check, exited 1)
    ∷ (start, exited 1)
    ∷ []

abbrev must : Call → Call × Ending
must c = (c, panicked)

abbrev pub program_calls : Flags → List (Call × Ending)
program_calls flags =
    map must (map register_counter counters)
    ++ (map must (map add_to_scheme scheme_packages) ++ main_calls flags)

-- A counter has a name that no other has taken; a package of this repository brings a group and
-- version that no other has brought; a kind that a controller is told of is one that its package
-- registers, if that is one of this repository, and the scheme has the package by then; a
-- controller has a manager; the manager is started with a controller and with both checks.
abbrev Has : Call → List Call → Type 0
Has c [] = ⊥
Has c (d ∷ calls) = (c ≡ d) ⊎ Has c calls

abbrev IsRegistered : String → Option SchemeBuilder → Type 0
IsRegistered name none = Unit
IsRegistered name (some builder) = contains_string builder.types name ≡ true

abbrev Knows : List Call → Kind → Type 0
Knows calls k =
    Has (add_to_scheme k.api_package) calls × IsRegistered k.name (scheme_builder k.api_package)

abbrev DoNotClash : Option SchemeBuilder → Option SchemeBuilder → Type 0
DoNotClash (some b) (some c) = same_group_version b.group_version c.group_version ≡ false
DoNotClash _ _ = Unit

abbrev IsNew : Package → List Call → Type 0
IsNew p [] = Unit
IsNew p (add_to_scheme q ∷ before) =
    DoNotClash (scheme_builder p) (scheme_builder q) × IsNew p before
IsNew p (_ ∷ before) = IsNew p before

abbrev HasFreeName : Counter → List Call → Type 0
HasFreeName c [] = Unit
HasFreeName c (register_counter d ∷ before) = (c.name == d.name ≡ false) × HasFreeName c before
HasFreeName c (_ ∷ before) = HasFreeName c before

module _ (flags : Flags) where
  abbrev pub IsReady : Call → List Call → Type 0
  IsReady (register_counter c) before = HasFreeName c before
  IsReady (add_to_scheme p) before = IsNew p before
  IsReady (complete c) before =
      Has (new_manager (manager_options flags)) before
      × All (Knows before) (c.for_kind ∷ c.owns ++ c.watches)
  IsReady start before =
      Has (complete (profile_controller flags.workload_identity)) before
      × Has add_healthz_check before
      × Has add_readyz_check before
  IsReady _ before = Unit

  -- Each call was ready when it was made.
  abbrev pub AreReady : List Call → Type 0
  AreReady [] = Unit
  AreReady (c ∷ before) = IsReady c before × AreReady before

module _ {World : Type 0} (lib : Call → World → Option String × World) where
  -- The calls one after another, up to the first that fails.
  unfoldable pub until_error : List (Call × Ending) → Progress World → Ending × Progress World
  until_error [] s = (returned, s)
  until_error ((c, ending) ∷ rest) s =
      let (e, w) = lib c s.world in
      let s' : Progress World = record { world = w; calls = c ∷ s.calls } in
      let ended = until_error rest s' in elim e [ none ↦ ended | some _ ↦ (ending, s') ]

  all_made : List (Call × Ending) → List Call → List Call
  all_made [] before = before
  all_made ((c, _) ∷ rest) before = all_made rest (c ∷ before)

  step_or_exit :
      (c : Call) (rest : List (Call × Ending)) (k : Progress World → Ending × Progress World)
      (s : Progress World)
      → ((t : Progress World) → k t ≡ until_error rest t)
      → or_exit lib (call lib c s) k ≡ until_error ((c, exited 1) ∷ rest) s
  unfolding or_exit call until_error
  step_or_exit c rest k s h =
      let next = h (record { world = (lib c s.world).1; calls = c ∷ s.calls }) in ground arith

  step_must :
      (c : Call) (rest : List (Call × Ending)) (k : Progress World → Ending × Progress World)
      (s : Progress World)
      → ((t : Progress World) → k t ≡ until_error rest t)
      → after_must lib (call lib c s) k ≡ until_error ((c, panicked) ∷ rest) s
  unfolding after_must call until_error
  step_must c rest k s h =
      let next = h (record { world = (lib c s.world).1; calls = c ∷ s.calls }) in ground arith

  init_order :
      (cs : List Call) (rest : List (Call × Ending)) (k : Progress World → Ending × Progress World)
      → ((t : Progress World) → k t ≡ until_error rest t)
      → (s : Progress World) → init lib cs k s ≡ until_error (map must cs ++ rest) s
  unfolding init
  init_order [] rest k h s = h s
  init_order (c ∷ cs) rest k h s =
      step_must c (map must cs ++ rest) (init lib cs k) s (init_order cs rest k h)

  main_order :
      (flags : Flags) (s : Progress World) → main lib flags s ≡ until_error (main_calls flags) s
  unfolding main started until_error
  main_order flags s =
      let last = (start, exited 1) ∷ [] in
      let checks = (add_readyz_check, exited 1) ∷ last in
      let both_checks = (add_healthz_check, exited 1) ∷ checks in
      let controller = profile_controller flags.workload_identity in
      step_or_exit _ ((complete controller, exited 1) ∷ both_checks) _ s λ s.
        step_or_exit _ both_checks _ s λ s.
          step_or_exit _ checks _ s
            λ s. step_or_exit _ last _ s λ s. step_or_exit start [] (λ s. (returned, s)) s λ s. refl

  -- The program makes its calls of the libraries in the order of `program_calls`, each once, and
  -- stops behind the first that fails: with a panic where a counter is registered or a package is
  -- added to the scheme, with exit code 1 elsewhere.
  pub program_order :
      (flags : Flags) (s : Progress World)
      → program lib flags s ≡ until_error (program_calls flags) s
  unfolding program
  program_order flags s =
      let schemes = map add_to_scheme scheme_packages in
      init_order (map register_counter counters) (map must schemes ++ main_calls flags)
        (init lib schemes (main lib flags))
        (init_order schemes (main_calls flags) (main lib flags) (main_order flags)) s
