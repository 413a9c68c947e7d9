-- ===== src/Managed/Established.antt =====
-- What the create-or-update methods leave on the API server.
use kubeflow_profile_control.Prelude.{String, ◌≡◌, ◌≢◌, false, Option, none, some, List, ◌∷◌, arith}
use kubeflow_profile_control.Api.Meta.{ObjectMeta}
use kubeflow_profile_control.Api.Profile.{Profile}
use kubeflow_profile_control.Api.Access.{RoleBinding, RequestAuthentication}
use kubeflow_profile_control.Cluster.{
  Env, State, Object, Event, create_object, update_object, Reply, found, failed,
}
use kubeflow_profile_control.Reconcile.Takeover.{ended}
use kubeflow_profile_control.Managed.{
  key_of, request_authentication_for, sync_request_authentication,
  update_istio_request_authentication,
}
use kubeflow_profile_control.Managed.Equal.{
  request_authentication_equal, meta_equal-resource_version,
}

-- The role binding that the server holds: the last one written, or the one that was read.
abbrev pub held : List Event → Reply RoleBinding → Option RoleBinding
held (create_object (Object.role_binding rb) ∷ _) r = some rb
held (update_object (Object.role_binding rb) ∷ _) r = some rb
held _ (found rb) = some rb
held _ (failed e) = none

-- The wanted one where there was none; else the old one with the wanted role and subjects.
abbrev pub bound : RoleBinding → ObjectMeta → Reply RoleBinding → RoleBinding
bound want m (failed e) = record want { meta = m }
bound want m (found old) = record old { role_ref = want.role_ref; subjects = want.subjects }

module _ {World : Type 0} (env : Env World) where
  request_authentication_unequal :
      (a b : RequestAuthentication)
      → a.meta.resource_version ≢ b.meta.resource_version
      → request_authentication_equal a b ≡ false
  unfolding request_authentication_equal
  request_authentication_unequal a b h = ground (arith, meta_equal-resource_version a.meta b.meta)

  sync_request_authentication_rewritten :
      (want old : RequestAuthentication) (s : State World)
      → want.meta.resource_version ≢ old.meta.resource_version
      → let again = record old { spec = want.spec } in
        let (e, w') = env.request_authentications.update again s.world in
        sync_request_authentication env want (found old) s ≡ (
          ended e,
          record {
            world = w';
            events = update_object (Object.request_authentication again) ∷ s.events;
          },
        )
  unfolding sync_request_authentication
  sync_request_authentication_rewritten want old s newer =
      rw (request_authentication_unequal want old newer) (ground arith)

  -- If the owner reference is set and the request authentication that is read has another
  -- resource version than the wanted one (whose literal leaves it out),
  -- `updateIstioRequestAuthentication` writes it, whatever its spec: also where the spec is the
  -- wanted one already. It ends with the error of that write, if any.
  pub request_authentication_rewritten :
      (profile : Profile) (oidc_issuer jwks_uri : String) (m : ObjectMeta)
      (old : RequestAuthentication) (s : State World)
      → env.set_controller_reference profile
          (request_authentication_for profile oidc_issuer jwks_uri).meta
        ≡ found m
      → (env.request_authentications.get (key_of m) s.world).0 ≡ found old
      → m.resource_version ≢ old.meta.resource_version
      → let want = request_authentication_for profile oidc_issuer jwks_uri in
        let w = (env.request_authentications.get (key_of m) s.world).1 in
        let again = record old { spec = want.spec } in
        let (e, w') = env.request_authentications.update again w in
        update_istio_request_authentication env profile oidc_issuer jwks_uri s ≡ (
          ended e,
          record {
            world = w';
            events = update_object (Object.request_authentication again) ∷ s.events;
          },
        )
  unfolding update_istio_request_authentication
  request_authentication_rewritten profile oidc_issuer jwks_uri m old s set read newer = rw set (
      rw read (
        sync_request_authentication_rewritten
          (record (request_authentication_for profile oidc_issuer jwks_uri) { meta = m }) old
          (record s { world = (env.request_authentications.get (key_of m) s.world).1 }) newer))
