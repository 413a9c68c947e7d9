-- ===== src/Plugins/WorkloadIdentity/Project.antt =====
-- `GetProjectID` of plugin_workload_identity.go, and what it finds.
use Prim.Native.Char.{Char, code}
use Prim.Native.String.{[], ◌∷◌, len, slice}
use text.Mathlib.TextLemmas.{nil-append, cons-append, append_assoc}
use text.Mathlib.TextPositions.{len-append, slice-append_right}
use kubeflow_profile_control.Prelude.{
  ℕ, ◌+◌, ◌-◌, String, ◌≡◌, sym, ap, ◌∙◌, Bool, true, false, Option, none, some, ◌==◌, ◌=?◌, ◌⧺◌,
  ltb, arith, if◌then◌else◌,
}
use kubeflow_profile_control.Cluster.{Outcome, ok, err, panic, Error}

abbrev pub gcp_sa_suffix : String
gcp_sa_suffix = ".iam.gserviceaccount.com"

abbrev pub is_dot : Char → Bool
is_dot c = code c =? b'.'

abbrev pub is_at : Char → Bool
is_at c = code c =? b'@'

-- `.` of a regular expression matches any character but the end of a line.
abbrev pub is_newline : Char → Bool
is_newline c = code c =? 10

abbrev then_char : Char → Option String → Option String
then_char c none = none
then_char c (some s) = some (c ∷ s)

-- `(.*?)\.` at the start of a text: what stands before the first dot of the line.
unfoldable pub up_to_dot : String → Option String
up_to_dot [] = none
up_to_dot (c ∷ s) =
    let rest = up_to_dot s in
    if is_dot c then some [] else if is_newline c then none else then_char c rest

abbrev or_else : Option String → Option String → Option String
or_else none b = b
or_else (some m) b = some m

-- `FindStringSubmatch` of `\@(.*?)\.`: the first `@` from which the rest matches.
unfoldable pub find_project : String → Option String
unfolding up_to_dot
find_project [] = none
find_project (c ∷ s) =
    let later = find_project s in if is_at c then or_else (up_to_dot s) later else later

-- Slicing with a negative start panics.
unfoldable pub get_project_id : String → Outcome String
unfolding find_project
get_project_id account =
    if ltb (len account) (len gcp_sa_suffix)
    then panic
    else if slice account (len account - len gcp_sa_suffix) (len account) == gcp_sa_suffix
    then elim (find_project account) [
      | none ↦ err (Error.message ("Cannot extract project id from " ⧺ (account ⧺ ".")))
      | some project ↦ ok project
    ]
    else err (Error.message (account ⧺ " is not a valid GCP service account."))

abbrev pub has_char : (Char → Bool) → String → Bool
has_char p [] = false
has_char p (c ∷ s) = if p c then true else has_char p s

up_to_dot-append :
    (project rest : String)
    → has_char is_dot project ≡ false
    → has_char is_newline project ≡ false
    → up_to_dot (project ⧺ ("." ⧺ rest)) ≡ some project
unfolding up_to_dot
up_to_dot-append [] rest no_dot no_newline = rw nil-append (rw cons-append)
up_to_dot-append (c ∷ project) rest no_dot no_newline =
    rw cons-append (ground (arith, up_to_dot-append project rest))

find_project-append :
    (account rest : String) (project : String)
    → has_char is_at account ≡ false
    → up_to_dot rest ≡ some project
    → find_project (account ⧺ ("@" ⧺ rest)) ≡ some project
unfolding find_project
find_project-append [] rest project no_at h = rw nil-append (rw cons-append (rw nil-append (rw h)))
find_project-append (c ∷ account) rest project no_at h =
    rw cons-append (ground (arith, find_project-append account rest project))

sub-add : (a b : ℕ) → a + b - b ≡ a
sub-add a b = omega arith

ends_with_suffix :
    (s : String)
    → slice
        (s ⧺ gcp_sa_suffix)
        (len (s ⧺ gcp_sa_suffix) - len gcp_sa_suffix)
        (len (s ⧺ gcp_sa_suffix))
      ≡ gcp_sa_suffix
ends_with_suffix s =
    rw (len-append s gcp_sa_suffix)
      (rw (sub-add (len s) (len gcp_sa_suffix)) (slice-append_right s gcp_sa_suffix))

long_enough : (s : String) → ltb (len (s ⧺ gcp_sa_suffix)) (len gcp_sa_suffix) ≡ false
long_enough s = rw (len-append s gcp_sa_suffix) (ground arith)

get_project_id-suffix :
    (s project : String)
    → find_project (s ⧺ gcp_sa_suffix) ≡ some project
    → get_project_id (s ⧺ gcp_sa_suffix) ≡ ok project
unfolding get_project_id
get_project_id-suffix s project h = rw (long_enough s) (rw (ends_with_suffix s) (rw h))

regroup :
    (account project : String)
    → account ⧺ ("@" ⧺ (project ⧺ gcp_sa_suffix)) ≡ (account ⧺ ("@" ⧺ project)) ⧺ gcp_sa_suffix
regroup account project = sym (
    append_assoc account ("@" ⧺ project) gcp_sa_suffix
    ∙ ap (λ t. account ⧺ t) (append_assoc "@" project gcp_sa_suffix))

-- `GetProjectID` finds the project of `account@project.iam.gserviceaccount.com`, if the account's
-- name has no `@` and the project's no dot and no end of line.
pub get_project_id-account :
    (account project : String)
    → has_char is_at account ≡ false
    → has_char is_dot project ≡ false
    → has_char is_newline project ≡ false
    → get_project_id (account ⧺ ("@" ⧺ (project ⧺ gcp_sa_suffix))) ≡ ok project
get_project_id-account account project no_at no_dot no_newline = rw (regroup account project) (
    get_project_id-suffix (account ⧺ ("@" ⧺ project)) project (
      rw (← regroup account project) (
        find_project-append account (project ⧺ gcp_sa_suffix) project no_at
          (up_to_dot-append project "iam.gserviceaccount.com" no_dot no_newline))))
