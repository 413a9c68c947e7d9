-- ===== src/Managed/Equal.antt =====
-- `reflect.DeepEqual` at the types that the methods compare. Maps are equal if they answer alike,
-- and a nil map differs from an empty one; a nil slice and an empty one are one list here, except in
-- a quota's spec. A quantity is compared by its text.
use kubeflow_profile_control.Prelude.{
  ℕ, String, ◌≡◌, refl, ◌↔◌, Bool, true, false, ◌&&◌, Option, none, some, List, ◌==◌, eq_iff,
  Bool-cases, inl, inr, arith,
}
use mathlib.Core.Bool.{decide, decide_iff}
use native.Mathlib.Decide.{ℕ_discrete}
use kubeflow_profile_control.Prelude.Dict.{Dict, lookup, deep_equal, deep_equal_iff}
use kubeflow_profile_control.Api.Meta.{
  ObjectMeta, OwnerReference, Subject, ScopeSelector, ResourceQuotaSpec,
}
use kubeflow_profile_control.Api.Access.{
  RoleRef, JwtRule, RequestAuthenticationSpec, RequestAuthentication, Rule, Action,
  AuthorizationPolicySpec, AuthorizationPolicy,
}

pub differ : (s t : String) → (s == t) ≡ false → s ≡ t → ⊥
differ s t e p = ground (arith, (eq_iff s t).1 p)

unfoldable pub String-discrete : Discrete String
String-discrete s t = elim (Bool-cases (s == t)) [
  | inl e ↦ yes ((eq_iff s t).0 e)
  | inr e ↦ no (differ s t e)
]

RoleRef-discrete : Discrete RoleRef
RoleRef-discrete = hlevel String-discrete

subjects_discrete : Discrete (List Subject)
subjects_discrete = hlevel String-discrete

strings_discrete : Discrete (List String)
strings_discrete = hlevel String-discrete

jwt_rules_discrete : Discrete (List JwtRule)
jwt_rules_discrete = hlevel String-discrete

rules_discrete : Discrete (List Rule)
rules_discrete = hlevel String-discrete

Action-discrete : Discrete Action
Action-discrete = hlevel

owner_references_discrete : Discrete (List OwnerReference)
owner_references_discrete = hlevel String-discrete

timestamp_discrete : Discrete (Option ℕ)
timestamp_discrete = hlevel ℕ_discrete

optional_strings_discrete : Discrete (Option (List String))
optional_strings_discrete = hlevel String-discrete

scope_selector_discrete : Discrete (Option ScopeSelector)
scope_selector_discrete = hlevel String-discrete

map_equal : Option (Dict String) → Option (Dict String) → Bool
unfolding deep_equal
map_equal none none = true
map_equal (some m) (some n) = deep_equal m n
map_equal _ _ = false

unfoldable pub meta_equal : ObjectMeta → ObjectMeta → Bool
unfolding map_equal strings_discrete owner_references_discrete timestamp_discrete decide
meta_equal a b =
    a.name == b.name
    && a.namespace == b.namespace
    && a.uid == b.uid
    && a.resource_version == b.resource_version
    && map_equal a.labels b.labels
    && map_equal a.annotations b.annotations
    && decide (strings_discrete a.finalizers b.finalizers)
    && decide (owner_references_discrete a.owner_references b.owner_references)
    && decide (timestamp_discrete a.deletion_timestamp b.deletion_timestamp)

request_authentication_spec_equal : RequestAuthenticationSpec → RequestAuthenticationSpec → Bool
unfolding map_equal jwt_rules_discrete decide
request_authentication_spec_equal a b =
    map_equal a.selector b.selector && decide (jwt_rules_discrete a.jwt_rules b.jwt_rules)

unfoldable pub request_authentication_equal : RequestAuthentication → RequestAuthentication → Bool
unfolding meta_equal request_authentication_spec_equal
request_authentication_equal a b =
    meta_equal a.meta b.meta && request_authentication_spec_equal a.spec b.spec

authorization_policy_spec_equal : AuthorizationPolicySpec → AuthorizationPolicySpec → Bool
unfolding map_equal Action-discrete rules_discrete decide
authorization_policy_spec_equal a b =
    decide (Action-discrete a.action b.action)
    && map_equal a.selector b.selector
    && decide (rules_discrete a.rules b.rules)

unfoldable pub authorization_policy_equal : AuthorizationPolicy → AuthorizationPolicy → Bool
unfolding meta_equal authorization_policy_spec_equal
authorization_policy_equal a b =
    meta_equal a.meta b.meta && authorization_policy_spec_equal a.spec b.spec

unfoldable pub resource_quota_spec_equal : ResourceQuotaSpec → ResourceQuotaSpec → Bool
unfolding map_equal optional_strings_discrete scope_selector_discrete decide
resource_quota_spec_equal a b =
    map_equal a.hard b.hard
    && decide (optional_strings_discrete a.scopes b.scopes)
    && decide (scope_selector_discrete a.scope_selector b.scope_selector)

map_equal_refl : (m : Option (Dict String)) → map_equal m m ≡ true
unfolding map_equal
map_equal_refl none = refl
map_equal_refl (some m) = (deep_equal_iff m m).1 (λ k. refl)

-- Both maps are nil, or neither is and they answer alike.
abbrev pub AnswerAlike : Option (Dict String) → Option (Dict String) → Type 0
AnswerAlike none none = Unit
AnswerAlike (some m) (some n) = (k : String) → lookup k m ≡ lookup k n
AnswerAlike _ _ = ⊥

map_equal-AnswerAlike : (m n : Option (Dict String)) → map_equal m n ≡ true → AnswerAlike m n
unfolding map_equal
map_equal-AnswerAlike none none h = tt
map_equal-AnswerAlike (some m) (some n) h = (deep_equal_iff m n).0 h
map_equal-AnswerAlike none (some n) h = cc
map_equal-AnswerAlike (some m) none h = cc

pub resource_quota_spec_equal-AnswerAlike :
    (a b : ResourceQuotaSpec)
    → resource_quota_spec_equal a b ≡ true
    → AnswerAlike a.hard b.hard × (a.scopes ≡ b.scopes) × (a.scope_selector ≡ b.scope_selector)
unfolding resource_quota_spec_equal
resource_quota_spec_equal-AnswerAlike a b h = (
  map_equal-AnswerAlike a.hard b.hard (ground arith),
  (decide_iff (optional_strings_discrete a.scopes b.scopes)).0 (ground arith),
  (decide_iff (scope_selector_discrete a.scope_selector b.scope_selector)).0 (ground arith),
)

pub resource_quota_spec_equal_refl : (a : ResourceQuotaSpec) → resource_quota_spec_equal a a ≡ true
unfolding resource_quota_spec_equal
resource_quota_spec_equal_refl a = ground (
  arith,
  map_equal_refl a.hard,
  (decide_iff (optional_strings_discrete a.scopes a.scopes)).1 refl,
  (decide_iff (scope_selector_discrete a.scope_selector a.scope_selector)).1 refl,
)

unfoldable pub role_ref_equal : RoleRef → RoleRef → Bool
unfolding RoleRef-discrete decide
role_ref_equal a b = decide (RoleRef-discrete a b)

unfoldable pub subjects_equal : List Subject → List Subject → Bool
unfolding subjects_discrete decide
subjects_equal a b = decide (subjects_discrete a b)

pub role_ref_equal_iff : (a b : RoleRef) → (role_ref_equal a b ≡ true) ↔ (a ≡ b)
unfolding role_ref_equal
role_ref_equal_iff a b = decide_iff (RoleRef-discrete a b)

pub subjects_equal_iff : (a b : List Subject) → (subjects_equal a b ≡ true) ↔ (a ≡ b)
unfolding subjects_equal
subjects_equal_iff a b = decide_iff (subjects_discrete a b)

-- Objects with different resource versions are never equal.
pub meta_equal-resource_version :
    (a b : ObjectMeta) → meta_equal a b ≡ true → a.resource_version ≡ b.resource_version
unfolding meta_equal
meta_equal-resource_version a b h = ground (arith, eq_iff a.resource_version b.resource_version)

map_equal-none : (m : Option (Dict String)) → map_equal none m ≡ true → none ≡ m
unfolding map_equal
map_equal-none none h = refl
map_equal-none (some m) h = cc

authorization_policy_spec_equal-eq :
    (a b : AuthorizationPolicySpec)
    → a.selector ≡ none
    → authorization_policy_spec_equal a b ≡ true
    → a ≡ b
unfolding authorization_policy_spec_equal
authorization_policy_spec_equal-eq a b h e =
    let same_action = (decide_iff (Action-discrete a.action b.action)).0 (ground arith) in
    let same_rules = (decide_iff (rules_discrete a.rules b.rules)).0 (ground arith) in
    let same_selector = map_equal-none b.selector (ground arith) in cc

-- Equal policies have one spec, where that has no selector, and one resource version.
pub authorization_policy_equal-spec :
    (a b : AuthorizationPolicy)
    → a.spec.selector ≡ none
    → authorization_policy_equal a b ≡ true
    → (a.spec ≡ b.spec) × (a.meta.resource_version ≡ b.meta.resource_version)
unfolding authorization_policy_equal
authorization_policy_equal-spec a b h e = (
  authorization_policy_spec_equal-eq a.spec b.spec h (ground arith),
  meta_equal-resource_version a.meta b.meta (ground arith),
)
