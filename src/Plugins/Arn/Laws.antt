-- ===== src/Plugins/Arn/Laws.antt =====
-- What the two functions read out of an ARN.
use Prim.Native.String.{[], ◌∷◌}
use text.Mathlib.TextLemmas.{nil-append, cons-append}
use kubeflow_profile_control.Prelude.{
  String, ◌≡◌, refl, Bool, true, false, none, some, ◌⧺◌, arith, if◌then◌else◌,
}
use kubeflow_profile_control.Plugins.Arn.{
  is_slash, after_first_slash, after_last_slash, get_issuer_url_from_provider_arn,
  get_iam_role_name_from_iam_role_arn,
}

abbrev pub has_slash : String → Bool
has_slash [] = false
has_slash (c ∷ s) = if is_slash c then true else has_slash s

after_first_slash-slash : (t : String) → after_first_slash ("/" ⧺ t) ≡ some t
unfolding after_first_slash
after_first_slash-slash t = rw cons-append (rw nil-append)

after_first_slash-append :
    (s t : String) → has_slash s ≡ false → after_first_slash (s ⧺ ("/" ⧺ t)) ≡ some t
unfolding after_first_slash
after_first_slash-append [] t h = rw nil-append (after_first_slash-slash t)
after_first_slash-append (c ∷ s) t h = rw cons-append (ground (arith, after_first_slash-append s t))

after_last_slash-none : (t : String) → has_slash t ≡ false → after_last_slash t ≡ none
unfolding after_last_slash
after_last_slash-none [] h = refl
after_last_slash-none (c ∷ t) h = ground (arith, after_last_slash-none t)

after_last_slash-slash : (t : String) → has_slash t ≡ false → after_last_slash ("/" ⧺ t) ≡ some t
unfolding after_last_slash
after_last_slash-slash t h = rw cons-append (rw nil-append (rw (after_last_slash-none t h)))

after_last_slash-append :
    (s t : String) → has_slash t ≡ false → after_last_slash (s ⧺ ("/" ⧺ t)) ≡ some t
unfolding after_last_slash
after_last_slash-append [] t h = rw nil-append (after_last_slash-slash t h)
after_last_slash-append (c ∷ s) t h =
    rw cons-append (rw (after_last_slash-append s t h, after_last_slash))

-- The issuer's URL read out of a provider's ARN is what follows the first slash, slashes of its
-- own included: what stands before that slash has none.
get_issuer_url-append :
    (provider url : String)
    → has_slash provider ≡ false
    → get_issuer_url_from_provider_arn (provider ⧺ ("/" ⧺ url)) ≡ url
unfolding get_issuer_url_from_provider_arn
get_issuer_url-append provider url h = rw (after_first_slash-append provider url h)

-- The role's name, which has no slash, is read out of a role's ARN as what follows the last
-- slash, whatever path the ARN has before it.
pub get_iam_role_name-append :
    (path name : String)
    → has_slash name ≡ false
    → get_iam_role_name_from_iam_role_arn (path ⧺ ("/" ⧺ name)) ≡ name
unfolding get_iam_role_name_from_iam_role_arn
get_iam_role_name-append path name h = rw (after_last_slash-append path name h)
