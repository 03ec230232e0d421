-- ===== src/Client/Api/Routing/Auth.antt =====
-- The routes of the requests in Auth.
use native.Mathlib.Decide.{ℕ_discrete}
use development_plan.Base.{◌≡◌, refl, Option, some, string_eq, All}
use development_plan.Mockup.Texts.{same_char, split}
use development_plan.Client.Api.{Runtime, RequestOptions, with_method, with_json, with_body}
use development_plan.Client.Api.Auth
use development_plan.Client.Api.Operations.Auth as Calls
use development_plan.Client.Api.Operations.Auth.{
  liveness_check, readiness_check, register_user, login, accept_invitation,
  accept_invitation_supabase, refresh_token, logout, get_current_user, get_current_user_tenant,
}
use development_plan.Client.Api.Paths.{lacks, before_query, segments, IsPlain}
use development_plan.Client.Api.Routes.{
  route, piece, fits, find_route, routes, find_request, health_routes, auth_routes, admin_routes,
  parcel_routes, spatial_routes, evidence_routes, attribution_routes,
}

pub auth-routed :
    {Value : Type 0} (runtime : Runtime Value) (call : Calls.AuthCall Value)
    (options : Option RequestOptions)
    → All IsPlain (Calls.ids call)
    → find_request (Calls.sent runtime call options)
      ≡ some (Calls.operation_id call, Calls.ids call)
unfolding routes health_routes auth_routes admin_routes parcel_routes spatial_routes evidence_routes
    attribution_routes route piece split same_char ℕ_discrete find_route fits string_eq before_query
    segments lacks find_request Calls.sent Calls.operation_id Calls.ids with_method with_json
    with_body Auth.liveness_check Auth.get_liveness_check_url Auth.readiness_check
    Auth.get_readiness_check_url Auth.register_user Auth.get_register_user_url Auth.login
    Auth.get_login_url Auth.accept_invitation Auth.get_accept_invitation_url
    Auth.accept_invitation_supabase Auth.get_accept_invitation_supabase_url Auth.refresh_token
    Auth.get_refresh_token_url Auth.logout Auth.get_logout_url Auth.get_current_user
    Auth.get_get_current_user_url Auth.get_current_user_tenant Auth.get_get_current_user_tenant_url
auth-routed runtime liveness_check options plain = refl
auth-routed runtime readiness_check options plain = refl
auth-routed runtime (register_user _) options plain = refl
auth-routed runtime (login _) options plain = refl
auth-routed runtime (accept_invitation _) options plain = refl
auth-routed runtime (accept_invitation_supabase _) options plain = refl
auth-routed runtime refresh_token options plain = refl
auth-routed runtime logout options plain = refl
auth-routed runtime get_current_user options plain = refl
auth-routed runtime get_current_user_tenant options plain = refl
