-- ===== src/Plugins/WorkloadIdentity/Bindings.antt =====
-- Who holds the workload identity role after `addBinding` and `revokeBinding`.
use kubeflow_profile_control.Prelude.{
  String, ◌≡◌, refl, Bool, true, false, List, [], ◌∷◌, ◌++◌, ◌==◌, ◌||◌, arith, if◌then◌else◌,
}
use kubeflow_profile_control.Slices.{contains_string}
use kubeflow_profile_control.Slices.Laws.{contains_string-remove_string}
use kubeflow_profile_control.Plugins.WorkloadIdentity.{
  Binding, Policy, workload_identity_role, add_binding, revoke_members, revoke_binding,
}

-- Some binding of the role has the member.
abbrev pub grants_in : List Binding → String → Bool
grants_in [] member = false
grants_in (binding ∷ bindings) member =
    if binding.role == workload_identity_role
    then contains_string binding.members member || grants_in bindings member
    else grants_in bindings member

abbrev pub grants : Policy → String → Bool
grants policy = grants_in policy.bindings

-- The bindings of the other roles, in order.
abbrev pub other_roles : List Binding → List Binding
other_roles [] = []
other_roles (binding ∷ bindings) =
    let rest = other_roles bindings in
    if binding.role == workload_identity_role then rest else binding ∷ rest

grants_in-append :
    (bindings : List Binding) (member t : String)
    → grants_in (bindings ++ record { role = workload_identity_role; members = member ∷ [] } ∷ []) t
      ≡ (if member == t then true else grants_in bindings t)
unfolding contains_string
grants_in-append [] member t = ground arith
grants_in-append (b ∷ bindings) member t = ground (arith, grants_in-append bindings member t)

grants_in-revoke_members :
    (bindings : List Binding) (member t : String)
    → grants_in (revoke_members bindings member) t
      ≡ (if member == t then false else grants_in bindings t)
unfolding revoke_members
grants_in-revoke_members [] member t = ground arith
grants_in-revoke_members (b ∷ bindings) member t = ground (
  arith,
  contains_string-remove_string b.members member t,
  grants_in-revoke_members bindings member t,
)

other_roles-revoke_members :
    (bindings : List Binding) (member : String)
    → other_roles (revoke_members bindings member) ≡ other_roles bindings
unfolding revoke_members
other_roles-revoke_members [] member = refl
other_roles-revoke_members (b ∷ bindings) member =
    ground (arith, other_roles-revoke_members bindings member)

other_roles-append :
    (bindings : List Binding) (member : String)
    → other_roles (bindings ++ record { role = workload_identity_role; members = member ∷ [] } ∷ [])
      ≡ other_roles bindings
other_roles-append [] member = refl
other_roles-append (b ∷ bindings) member = ground (arith, other_roles-append bindings member)

-- `addBinding` grants the workload identity role to the member and changes it for no other; the
-- other roles' bindings and the policy's tag stay.
pub add_binding-grants :
    (policy : Policy) (member t : String)
    → (grants (add_binding policy member) t ≡ (if member == t then true else grants policy t))
      × (other_roles (add_binding policy member).bindings ≡ other_roles policy.bindings)
      × ((add_binding policy member).etag ≡ policy.etag)
unfolding add_binding
add_binding-grants policy member t =
    (grants_in-append policy.bindings member t, other_roles-append policy.bindings member, refl)

-- `revokeBinding` takes the workload identity role from the member, in however many bindings it
-- stands, and changes it for no other; the other roles' bindings and the policy's tag stay.
pub revoke_binding-grants :
    (policy : Policy) (member t : String)
    → (grants (revoke_binding policy member) t ≡ (if member == t then false else grants policy t))
      × (other_roles (revoke_binding policy member).bindings ≡ other_roles policy.bindings)
      × ((revoke_binding policy member).etag ≡ policy.etag)
unfolding revoke_binding
revoke_binding-grants policy member t = (
  grants_in-revoke_members policy.bindings member t,
  other_roles-revoke_members policy.bindings member,
  refl,
)
