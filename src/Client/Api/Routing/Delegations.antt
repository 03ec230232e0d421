-- ===== src/Client/Api/Routing/Delegations.antt =====
-- The routes of the requests in Delegations.
use native.Mathlib.Decide.{ℕ_discrete}
use development_plan.Base.{◌≡◌, refl, Option, some, [], ◌∷◌, string_eq, All}
use development_plan.Mockup.Texts.{same_char, split}
use development_plan.Client.Api.{Runtime, RequestOptions, with_method, with_json, with_body}
use development_plan.Client.Api.Delegations
use development_plan.Client.Api.Operations.Delegations as Calls
use development_plan.Client.Api.Operations.Delegations.{
  list_delegations, create_delegation, get_delegation, revoke_delegation, extend_delegation,
}
use development_plan.Client.Api.Paths.{lacks, before_query, segments, IsPlain}
use development_plan.Client.Api.Routes.{
  route, piece, fits, find_route, routes, find_request, health_routes, auth_routes, admin_routes,
  parcel_routes, spatial_routes, evidence_routes, attribution_routes,
}
use development_plan.Client.Api.Routing.Ids.{at_last, at_middle}

pub delegation-routed :
    {Value : Type 0} (runtime : Runtime Value) (call : Calls.DelegationCall Value)
    (options : Option RequestOptions)
    → All IsPlain (Calls.ids call)
    → find_request (Calls.sent runtime call options)
      ≡ some (Calls.operation_id call, Calls.ids call)
unfolding routes health_routes auth_routes admin_routes parcel_routes spatial_routes evidence_routes
    attribution_routes route piece split same_char ℕ_discrete find_route fits string_eq before_query
    segments lacks find_request Calls.sent Calls.operation_id Calls.ids with_method with_json
    with_body Delegations.list_delegations Delegations.get_list_delegations_url
    Delegations.create_delegation Delegations.get_create_delegation_url Delegations.get_delegation
    Delegations.get_get_delegation_url Delegations.revoke_delegation
    Delegations.get_revoke_delegation_url Delegations.extend_delegation
    Delegations.get_extend_delegation_url
delegation-routed runtime list_delegations options plain = refl
delegation-routed runtime (create_delegation _) options plain = refl
delegation-routed runtime (get_delegation delegation_id) options plain =
    at_last "GET" "getDelegation" "/v1/admin/delegations/"
      ("" ∷ "v1" ∷ "admin" ∷ "delegations" ∷ []) delegation_id (λ c s. refl) plain.0 refl refl
delegation-routed runtime (revoke_delegation delegation_id) options plain =
    at_middle "POST" "revokeDelegation" "/v1/admin/delegations/"
      ("" ∷ "v1" ∷ "admin" ∷ "delegations" ∷ []) delegation_id "/revoke" ("revoke" ∷ [])
      (λ c s. refl) plain.0 refl refl refl
delegation-routed runtime (extend_delegation delegation_id _) options plain =
    at_middle "POST" "extendDelegation" "/v1/admin/delegations/"
      ("" ∷ "v1" ∷ "admin" ∷ "delegations" ∷ []) delegation_id "/extend" ("extend" ∷ [])
      (λ c s. refl) plain.0 refl refl refl
