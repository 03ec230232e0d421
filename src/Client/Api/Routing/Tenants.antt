-- ===== src/Client/Api/Routing/Tenants.antt =====
-- The routes of the requests in Tenants.
use native.Mathlib.Decide.{ℕ_discrete}
use development_plan.Base.{◌≡◌, refl, Option, some, [], ◌∷◌, string_eq, All}
use development_plan.Mockup.Texts.{same_char, split}
use development_plan.Client.Api.{Runtime, RequestOptions, with_method, with_json, with_body}
use development_plan.Client.Api.Tenants
use development_plan.Client.Api.Operations.Tenants as Calls
use development_plan.Client.Api.Operations.Tenants.{
  assign_role, list_invitations, create_invitation, revoke_invitation, list_tenants, get_tenant,
  suspend_tenant, reactivate_tenant, archive_tenant,
}
use development_plan.Client.Api.Paths.{lacks, before_query, segments, IsPlain}
use development_plan.Client.Api.Routes.{
  route, piece, fits, find_route, routes, find_request, health_routes, auth_routes, admin_routes,
  parcel_routes, spatial_routes, evidence_routes, attribution_routes,
}
use development_plan.Client.Api.Routing.Ids.{at_last, at_middle}

pub tenant-routed :
    {Value : Type 0} (runtime : Runtime Value) (call : Calls.TenantCall Value)
    (options : Option RequestOptions)
    → All IsPlain (Calls.ids call)
    → find_request (Calls.sent runtime call options)
      ≡ some (Calls.operation_id call, Calls.ids call)
unfolding routes health_routes auth_routes admin_routes parcel_routes spatial_routes evidence_routes
    attribution_routes route piece split same_char ℕ_discrete find_route fits string_eq before_query
    segments lacks find_request Calls.sent Calls.operation_id Calls.ids with_method with_json
    with_body Tenants.assign_role Tenants.get_assign_role_url Tenants.list_invitations
    Tenants.get_list_invitations_url Tenants.create_invitation Tenants.get_create_invitation_url
    Tenants.revoke_invitation Tenants.get_revoke_invitation_url Tenants.list_tenants
    Tenants.get_list_tenants_url Tenants.get_tenant Tenants.get_get_tenant_url
    Tenants.suspend_tenant Tenants.get_suspend_tenant_url Tenants.reactivate_tenant
    Tenants.get_reactivate_tenant_url Tenants.archive_tenant Tenants.get_archive_tenant_url
tenant-routed runtime (assign_role user_id _) options plain =
    at_middle "POST" "assignRole" "/v1/admin/users/" ("" ∷ "v1" ∷ "admin" ∷ "users" ∷ []) user_id
      "/roles" ("roles" ∷ []) (λ c s. refl) plain.0 refl refl refl
tenant-routed runtime list_invitations options plain = refl
tenant-routed runtime (create_invitation _) options plain = refl
tenant-routed runtime (revoke_invitation invitation_id) options plain =
    at_middle "POST" "revokeInvitation" "/v1/admin/invitations/"
      ("" ∷ "v1" ∷ "admin" ∷ "invitations" ∷ []) invitation_id "/revoke" ("revoke" ∷ [])
      (λ c s. refl) plain.0 refl refl refl
tenant-routed runtime list_tenants options plain = refl
tenant-routed runtime (get_tenant tenant_id) options plain =
    at_last "GET" "getTenant" "/v1/admin/tenants/" ("" ∷ "v1" ∷ "admin" ∷ "tenants" ∷ []) tenant_id
      (λ c s. refl) plain.0 refl refl
tenant-routed runtime (suspend_tenant tenant_id _) options plain =
    at_middle "POST" "suspendTenant" "/v1/admin/tenants/" ("" ∷ "v1" ∷ "admin" ∷ "tenants" ∷ [])
      tenant_id "/suspend" ("suspend" ∷ []) (λ c s. refl) plain.0 refl refl refl
tenant-routed runtime (reactivate_tenant tenant_id) options plain =
    at_middle "POST" "reactivateTenant" "/v1/admin/tenants/" ("" ∷ "v1" ∷ "admin" ∷ "tenants" ∷ [])
      tenant_id "/reactivate" ("reactivate" ∷ []) (λ c s. refl) plain.0 refl refl refl
tenant-routed runtime (archive_tenant tenant_id) options plain =
    at_middle "POST" "archiveTenant" "/v1/admin/tenants/" ("" ∷ "v1" ∷ "admin" ∷ "tenants" ∷ [])
      tenant_id "/archive" ("archive" ∷ []) (λ c s. refl) plain.0 refl refl refl
