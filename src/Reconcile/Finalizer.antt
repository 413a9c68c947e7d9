-- ===== src/Reconcile/Finalizer.antt =====
-- The finalizer that `reconcile` puts on a profile and takes off it.
use kubeflow_profile_control.Prelude.{
  String, ◌≡◌, Bool, true, false, none, some, arith, ◌==◌, eq_iff, if◌then◌else◌,
}
use kubeflow_profile_control.Api.Profile.{Profile}
use kubeflow_profile_control.Slices.{contains_string}
use kubeflow_profile_control.Slices.Laws.{contains_string-append, contains_string-remove_string}
use kubeflow_profile_control.Reconcile.{profile_finalizer, with_finalizer}

-- The profile as the stage leaves it: written, or as it was.
abbrev pub finalized : Profile → Profile
finalized p = elim (with_finalizer p) [ none ↦ p | some p' ↦ p' ]

abbrev pub is_live : Profile → Bool
is_live p = elim p.meta.deletion_timestamp [ none ↦ true | some _ ↦ false ]

-- After the finalizer's stage of `reconcile`, the finalizer is on the profile exactly while the
-- profile is not being deleted, and every other finalizer is there exactly if it was there before.
pub finalized-contains_string :
    (p : Profile) (t : String)
    → contains_string (finalized p).meta.finalizers t
      ≡ (if profile_finalizer == t then is_live p else contains_string p.meta.finalizers t)
unfolding with_finalizer
finalized-contains_string p t = ground (
  arith,
  eq_iff profile_finalizer t,
  contains_string-append p.meta.finalizers profile_finalizer t,
  contains_string-remove_string p.meta.finalizers profile_finalizer t,
)

-- What the stage decides depends on the finalizers and the deletion timestamp only.
pub with_finalizer_settled :
    (p p' : Profile)
    → p'.meta.finalizers ≡ (finalized p).meta.finalizers
    → p'.meta.deletion_timestamp ≡ p.meta.deletion_timestamp
    → with_finalizer p' ≡ none
unfolding with_finalizer
with_finalizer_settled p p' same_finalizers same_deletion = ground (
  arith,
  eq_iff profile_finalizer profile_finalizer,
  contains_string-append p.meta.finalizers profile_finalizer profile_finalizer,
  contains_string-remove_string p.meta.finalizers profile_finalizer profile_finalizer,
)
