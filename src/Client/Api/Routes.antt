-- ===== src/Client/Api/Routes.antt =====
-- backend/app: the routes of the server, by the decorators of its routers, in the order in which
-- main.py includes them, and the one that fits a request of the client.
use development_plan.Base.{
  String, ◌≡◌, ap, Option, none, some, List, [], ◌∷◌, ◌++◌, ◌==◌, string_eq, if◌then◌else◌, map,
}
use native.Mathlib.Decide.{ℕ_discrete}
use development_plan.Mockup.Texts.{same_char, split}
use development_plan.Client.Api.{Sent}
use development_plan.Client.Api.Paths.{segments}

pub data Piece : Type 0 where
  literal : String → Piece
  parameter : Piece

pub record Route : Type 0 where
  pub method : String
  pub template : List Piece
  pub operation_id : String

-- A segment of a route's path, in braces where it is a parameter.
unfoldable pub piece : String → Piece
unfolding same_char ℕ_discrete
piece String.[] = literal ""
piece (String.◌∷◌ c s) = if same_char c "{" then parameter else literal (String.◌∷◌ c s)

-- A decorated handler, by its method, path and operation.
unfoldable pub route : String → String → String → Route
route method path operation_id = record {
  method = method;
  template = map piece (split "/" path);
  operation_id = operation_id;
}

-- The values of the parameters, where a path fits the template: a parameter takes one segment,
-- which is not empty.
unfoldable pub fits : List Piece → List String → Option (List String)
fits [] [] = some []
fits [] (s ∷ ss) = none
fits (literal l ∷ ps) [] = none
fits (parameter ∷ ps) [] = none
fits (literal l ∷ ps) (s ∷ ss) = let rest = fits ps ss in if l == s then rest else none
fits (parameter ∷ ps) (String.[] ∷ ss) = none
fits (parameter ∷ ps) (String.◌∷◌ c s ∷ ss) = elim (fits ps ss) [
  | none ↦ none
  | some found ↦ some (String.◌∷◌ c s ∷ found)
]

-- The first route that fits, with the values of its parameters.
unfoldable pub find_route : List Route → String → List String → Option (String × List String)
find_route [] method path = none
find_route (r ∷ rs) method path =
    let rest = find_route rs method path in
    elim (fits r.template path) [
      | none ↦ rest
      | some found ↦ if r.method == method then some (r.operation_id, found) else rest
    ]

unfoldable pub health_routes : List Route
health_routes =
    route "GET" "/health/live" "livenessCheck" ∷ route "GET" "/health/ready" "readinessCheck" ∷ []

unfoldable pub auth_routes : List Route
auth_routes =
    route "POST" "/v1/auth/register" "registerUser"
    ∷ route "POST" "/v1/auth/login" "login"
    ∷ route "POST" "/v1/auth/invitations/accept" "acceptInvitation"
    ∷ route "POST" "/v1/auth/invitations/accept-supabase" "acceptInvitationSupabase"
    ∷ route "POST" "/v1/auth/refresh" "refreshToken"
    ∷ route "POST" "/v1/auth/logout" "logout"
    ∷ route "GET" "/v1/auth/me" "getCurrentUser"
    ∷ route "GET" "/v1/auth/me/tenant" "getCurrentUserTenant"
    ∷ []

unfoldable pub admin_routes : List Route
admin_routes =
    route "POST" "/v1/admin/users/{user_id}/roles" "assignRole"
    ∷ route "POST" "/v1/admin/invitations" "createInvitation"
    ∷ route "GET" "/v1/admin/invitations" "listInvitations"
    ∷ route "POST" "/v1/admin/invitations/{invitation_id}/revoke" "revokeInvitation"
    ∷ route "GET" "/v1/admin/tenants" "listTenants"
    ∷ route "GET" "/v1/admin/tenants/{tenant_id}" "getTenant"
    ∷ route "POST" "/v1/admin/tenants/{tenant_id}/suspend" "suspendTenant"
    ∷ route "POST" "/v1/admin/tenants/{tenant_id}/reactivate" "reactivateTenant"
    ∷ route "POST" "/v1/admin/tenants/{tenant_id}/archive" "archiveTenant"
    ∷ route "POST" "/v1/admin/delegations" "createDelegation"
    ∷ route "GET" "/v1/admin/delegations" "listDelegations"
    ∷ route "GET" "/v1/admin/delegations/{delegation_id}" "getDelegation"
    ∷ route "POST" "/v1/admin/delegations/{delegation_id}/revoke" "revokeDelegation"
    ∷ route "POST" "/v1/admin/delegations/{delegation_id}/extend" "extendDelegation"
    ∷ []

unfoldable pub parcel_routes : List Route
parcel_routes =
    route "POST" "/v1/parcels" "createParcel"
    ∷ route "PATCH" "/v1/parcels/{parcel_id}" "updateParcel"
    ∷ route "POST" "/v1/parcels/{parcel_id}/archive" "archiveParcel"
    ∷ route "PUT" "/v1/parcels/{parcel_id}/geometry" "setParcelGeometryReference"
    ∷ route "GET" "/v1/parcels" "listParcels"
    ∷ route "GET" "/v1/parcels/{parcel_id}" "getParcel"
    ∷ []

unfoldable pub spatial_routes : List Route
spatial_routes =
    route "PUT" "/v1/spatial/parcels/{parcel_id}/geometry" "submitParcelGeometry"
    ∷ route "GET" "/v1/spatial/parcels/{parcel_id}/geometry" "getActiveParcelGeometry"
    ∷ []

unfoldable pub evidence_routes : List Route
evidence_routes =
    route "POST" "/v1/parcels/{parcel_id}/evidence" "uploadParcelEvidence"
    ∷ route "GET" "/v1/parcels/{parcel_id}/evidence" "listParcelEvidence"
    ∷ []

unfoldable pub attribution_routes : List Route
attribution_routes =
    route "POST" "/v1/evidence/{evidence_id}/attributions" "recordEvidenceAttribution"
    ∷ route "POST" "/v1/evidence/attributions/{attribution_id}/corrections"
        "correctEvidenceAttribution"
    ∷ []

unfoldable pub routes : List Route
routes =
    health_routes ++ auth_routes ++ admin_routes ++ parcel_routes ++ spatial_routes
    ++ evidence_routes ++ attribution_routes

-- The route of a request.
unfoldable pub find_request : Sent → Option (String × List String)
find_request request = elim request.options.method [
  | none ↦ none
  | some method ↦ find_route routes method (segments request.url)
]

pub find_request-method :
    (s : Sent) (m : String)
    → s.options.method ≡ some m
    → find_request s ≡ find_route routes m (segments s.url)
unfolding find_request
find_request-method s m e =
    ap
      (λ (o : Option String). elim o [
        | none ↦ none
        | some method ↦ find_route routes method (segments s.url)
      ])
      e
