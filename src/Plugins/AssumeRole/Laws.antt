-- ===== src/Plugins/AssumeRole/Laws.antt =====
-- The trust policies that the controller writes, and the two updates as operations on their lists
-- of identities.
use mathlib.Core.List.{append-nil, append_assoc}
use text.Mathlib.TextLemmas.{append_cancel_left}
use text.Mathlib.TextPositions.{eq_refl}
use kubeflow_profile_control.Prelude.{
  String, ◌≡◌, ◌≢◌, refl, ◌∙◌, false, none, some, List, [], ◌∷◌, ◌++◌, ◌==◌, ◌⧺◌, eq_iff, arith,
  if◌then◌else◌, Bool-cases, inl, inr,
}
use kubeflow_profile_control.Cluster.{ok, condition_exist_error, found}
use kubeflow_profile_control.Slices.{contains_string, remove_string}
use kubeflow_profile_control.Slices.Laws.{remove_string_added}
use kubeflow_profile_control.Plugins.Arn.{get_issuer_url_from_provider_arn}
use kubeflow_profile_control.Plugins.Json.{
  Json, JsonLib, IsJsonLib, strings, member_at, first_item, items-of_items,
}
use kubeflow_profile_control.Plugins.AssumeRole.{
  trust_identity_subject, make_assume_role_with_web_identity_policy_document, make_policy_document,
  remaining_conditions, audience_and_subjects, collect_identities, other_identities, identities_at,
  federated, statements_of, as_maps, unmarshal_map, add_to_statement,
  add_service_account_in_assume_role_policy, remove_service_account_in_assume_role_policy,
}

-- The statement, and the document, for a provider and the identities that it trusts.
abbrev trust_statement : String → List String → Json
trust_statement arn identities =
    make_assume_role_with_web_identity_policy_document arn
      (remaining_conditions (get_issuer_url_from_provider_arn arn) identities)

-- A document with that statement first, and with others behind it.
abbrev pub trust_policy_and : String → List String → List Json → Json
trust_policy_and arn identities others =
    make_policy_document (trust_statement arn identities ∷ others)

abbrev pub trust_policy : String → List String → Json
trust_policy arn identities = make_policy_document (trust_statement arn identities ∷ [])

aud-ne-sub : (issuer : String) → ((issuer ⧺ ":aud") == (issuer ⧺ ":sub")) ≡ false
aud-ne-sub issuer = elim (Bool-cases ((issuer ⧺ ":aud") == (issuer ⧺ ":sub"))) [
  | inr e ↦ e
  | inl e ↦ absurd (aud_sub (append_cancel_left issuer ":aud" ":sub" ((eq_iff _ _).0 e)))
]
  where
    aud_sub : ◌≢◌ {A = String} ":aud" ":sub"
    aud_sub = ground (arith, eq_iff ":aud" ":sub")

remaining_conditions-append :
    (issuer : String) (identities : List String) (s : String)
    → remaining_conditions issuer (identities ++ s ∷ [])
      ≡ audience_and_subjects issuer (identities ++ s ∷ [])
unfolding remaining_conditions
remaining_conditions-append issuer [] s = refl
remaining_conditions-append issuer (_ ∷ _) s = refl

module _ {Text : Type 0} (lib : JsonLib Text) (laws : IsJsonLib lib) where
  collect_identities-strings :
      (identity : String) (seen identities : List String)
      → collect_identities lib identity seen (strings identities)
        ≡ (if contains_string identities identity then none else some (seen ++ identities))
  unfolding collect_identities contains_string strings
  collect_identities-strings identity seen [] = rw append-nil
  collect_identities-strings identity seen (s ∷ ss) = rw (laws.result_str-string s) (
      rw (collect_identities-strings identity (seen ++ s ∷ []) ss) (rw append_assoc (ground arith)))

  other_identities-strings :
      (identity : String) (identities : List String)
      → other_identities lib identity (strings identities) ≡ remove_string identities identity
  unfolding other_identities remove_string strings
  other_identities-strings identity [] = refl
  other_identities-strings identity (s ∷ ss) =
      rw (laws.result_str-string s) (rw (other_identities-strings identity ss))

  federated-trust_policy :
      (arn : String) (identities : List String) (others : List Json)
      → federated lib (lib.marshal (trust_policy_and arn identities others)) ≡ arn
  unfolding federated make_policy_document make_assume_role_with_web_identity_policy_document
      member_at first_item
  federated-trust_policy arn identities others =
      rw (laws.gjson_get-federated (trust_policy_and arn identities others), federated)
        (laws.result_string-string arn)

  identities_at-trust_statement :
      (arn : String) (identities : List String)
      → identities_at lib
          (get_issuer_url_from_provider_arn arn ⧺ ":sub")
          (trust_statement arn identities)
        ≡ strings identities
  unfolding identities_at remaining_conditions make_assume_role_with_web_identity_policy_document
      member_at
  identities_at-trust_statement arn [] =
      rw (laws.gjson_get-string_equals (trust_statement arn []), identities_at)
        (rw (laws.result_map-object _) (rw (aud-ne-sub (get_issuer_url_from_provider_arn arn))))
  identities_at-trust_statement arn (s ∷ ss) =
      rw (laws.gjson_get-string_equals (trust_statement arn (s ∷ ss)), identities_at)
        (rw (laws.result_map-object _) (
          rw (aud-ne-sub (get_issuer_url_from_provider_arn arn)) (
            rw (eq_refl (get_issuer_url_from_provider_arn arn ⧺ ":sub"))
              (rw (laws.result_array-array _) (rw items-of_items)))))

  statements_of-trust_policy :
      (arn : String) (identities : List String) (others : List Json)
      → statements_of lib (trust_policy_and arn identities others)
        ≡ trust_statement arn identities ∷ as_maps others
  unfolding statements_of make_policy_document make_assume_role_with_web_identity_policy_document
  statements_of-trust_policy arn identities others =
      rw (laws.unmarshal-marshal _, statements_of) (rw items-of_items)

  unmarshal_map-trust_policy :
      (arn : String) (identities : List String) (others : List Json)
      → unmarshal_map (lib.unmarshal (lib.marshal (trust_policy_and arn identities others)))
        ≡ found (trust_policy_and arn identities others)
  unfolding unmarshal_map make_policy_document
  unmarshal_map-trust_policy arn identities others = rw (laws.unmarshal-marshal _)

  add_to_statement-trust_policy :
      (arn : String) (identities : List String) (others : List Json) (identity : String)
      → add_to_statement lib
          (lib.marshal (trust_policy_and arn identities others))
          identity
          (trust_statement arn identities)
        ≡ (if contains_string identities identity
            then ok
                (lib.marshal (trust_policy_and arn identities others), some condition_exist_error)
            else ok (lib.marshal (trust_policy arn (identities ++ identity ∷ [])), none))
  unfolding add_to_statement
  add_to_statement-trust_policy arn identities others identity =
      rw (federated-trust_policy arn identities others, add_to_statement)
        (rw (identities_at-trust_statement arn identities) (
          rw (collect_identities-strings identity [] identities) (
            rw
              (remaining_conditions-append (get_issuer_url_from_provider_arn arn) identities
                identity)
              (ground arith))))

  -- On a document whose first statement is one that the controller wrote, the addition appends the
  -- service account's identity to the list of that statement, and drops all other statements. If
  -- the identity is there already, it returns the document as it was and `ConditionExistError`.
  pub add-trust_policy :
      (arn : String) (identities : List String) (others : List Json) (namespace name : String)
      → let identity = trust_identity_subject namespace name in
        let document = lib.marshal (trust_policy_and arn identities others) in
        add_service_account_in_assume_role_policy lib document namespace name ≡ (
          if contains_string identities identity
          then ok (document, some condition_exist_error)
          else ok (lib.marshal (trust_policy arn (identities ++ identity ∷ [])), none))
  unfolding add_service_account_in_assume_role_policy
  add-trust_policy arn identities others namespace name =
      rw
        (
          unmarshal_map-trust_policy arn identities others,
          add_service_account_in_assume_role_policy,
        )
        (rw (statements_of-trust_policy arn identities others) (
          add_to_statement-trust_policy arn identities others
            (trust_identity_subject namespace name)))

  -- On a document whose first statement is one that the controller wrote, the removal takes the
  -- service account's identity out of the list of that statement, wherever it stands, and drops
  -- all other statements.
  pub remove-trust_policy :
      (arn : String) (identities : List String) (others : List Json) (namespace name : String)
      → remove_service_account_in_assume_role_policy lib
          (lib.marshal (trust_policy_and arn identities others))
          namespace
          name
        ≡ ok (
          lib.marshal
              (trust_policy arn (remove_string identities (trust_identity_subject namespace name))),
          none,
        )
  unfolding remove_service_account_in_assume_role_policy
  remove-trust_policy arn identities others namespace name =
      rw
        (
          unmarshal_map-trust_policy arn identities others,
          remove_service_account_in_assume_role_policy,
        )
        (rw (statements_of-trust_policy arn identities others) (
          rw (federated-trust_policy arn identities others) (
            rw (identities_at-trust_statement arn identities)
              (rw (other_identities-strings (trust_identity_subject namespace name) identities)))))

  -- Where the only statement of a document is one that the controller wrote, adding a service
  -- account whose identity it lacks and removing that account again gives the document back.
  pub remove-add :
      (arn : String) (identities : List String) (namespace name : String)
      → contains_string identities (trust_identity_subject namespace name) ≡ false
      → let document = lib.marshal (trust_policy arn identities) in
        let added =
          lib.marshal
            (trust_policy arn (identities ++ trust_identity_subject namespace name ∷ [])) in
        (add_service_account_in_assume_role_policy lib document namespace name ≡ ok (added, none))
        × (remove_service_account_in_assume_role_policy lib added namespace name
            ≡ ok (document, none))
  remove-add arn identities namespace name fresh = (
    add-trust_policy arn identities [] namespace name ∙ rw fresh,
    remove-trust_policy arn _ [] namespace name ∙ rw (remove_string_added identities _ fresh),
  )
