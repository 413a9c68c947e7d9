-- ===== src/Plugins/Arn.antt =====
-- `getIssuerUrlFromProviderArn` and `getIAMRoleNameFromIAMRoleArn` of plugin_iam.go.
pub mod Laws
use Prim.Native.Char.{Char, code}
use Prim.Native.String.{[], ◌∷◌}
use kubeflow_profile_control.Prelude.{String, Bool, Option, none, some, ◌=?◌, if◌then◌else◌}

abbrev pub is_slash : Char → Bool
is_slash c = code c =? b'/'

-- What stands behind the first `/`, as `s[strings.Index(s, "/")+1:]` gives it where there is one.
unfoldable pub after_first_slash : String → Option String
after_first_slash [] = none
after_first_slash (c ∷ s) = if is_slash c then some s else after_first_slash s

-- What stands behind the last `/`, as `s[strings.LastIndex(s, "/")+1:]` gives it.
unfoldable pub after_last_slash : String → Option String
after_last_slash [] = none
after_last_slash (c ∷ s) = elim (after_last_slash s) [
  | some rest ↦ some rest
  | none ↦ if is_slash c then some s else none
]

-- With no `/` the index is -1, and the slice is the whole text.
abbrev pub or_whole : Option String → String → String
or_whole none s = s
or_whole (some rest) s = rest

unfoldable pub get_issuer_url_from_provider_arn : String → String
unfolding after_first_slash
get_issuer_url_from_provider_arn arn = or_whole (after_first_slash arn) arn

unfoldable pub get_iam_role_name_from_iam_role_arn : String → String
unfolding after_last_slash
get_iam_role_name_from_iam_role_arn arn = or_whole (after_last_slash arn) arn
