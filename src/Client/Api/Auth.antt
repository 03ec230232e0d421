-- ===== src/Client/Api/Auth.antt =====
-- lib/api-client-react/src/generated/api.ts: the health checks, the sign-in and the current user.
use development_plan.Base.{String, Option, List, [], ◌∷◌, string_eq}
use development_plan.Client.Api.{absent, RequestOptions, Runtime, Sent, with_method, with_json}
use development_plan.Client.Api.Hooks.{
  QuerySettings, QueryArguments, query_options, MutationSettings, MutationArguments,
  mutation_options,
}

unfoldable pub get_liveness_check_url : String
get_liveness_check_url = "/health/live"

unfoldable pub liveness_check : Option RequestOptions → Sent
liveness_check options = record {
  url = get_liveness_check_url;
  options = with_method "GET" options;
}

unfoldable pub get_liveness_check_query_key : List String
get_liveness_check_query_key = "/health/live" ∷ []

unfoldable pub get_liveness_check_query_options : Option QueryArguments → QuerySettings
get_liveness_check_query_options arguments =
    query_options get_liveness_check_query_key (λ options. liveness_check options) absent arguments

unfoldable pub get_readiness_check_url : String
get_readiness_check_url = "/health/ready"

unfoldable pub readiness_check : Option RequestOptions → Sent
readiness_check options = record {
  url = get_readiness_check_url;
  options = with_method "GET" options;
}

unfoldable pub get_readiness_check_query_key : List String
get_readiness_check_query_key = "/health/ready" ∷ []

unfoldable pub get_readiness_check_query_options : Option QueryArguments → QuerySettings
get_readiness_check_query_options arguments =
    query_options get_readiness_check_query_key (λ options. readiness_check options) absent
      arguments

unfoldable pub get_register_user_url : String
get_register_user_url = "/v1/auth/register"

unfoldable pub register_user :
    {Value : Type 0} → Runtime Value → Value → Option RequestOptions → Sent
register_user runtime body options = record {
  url = get_register_user_url;
  options = with_json runtime "POST" body options;
}

unfoldable pub get_register_user_mutation_options :
    {Value : Type 0} → Runtime Value → Option (MutationArguments (Value)) → MutationSettings (Value)
get_register_user_mutation_options runtime arguments =
    mutation_options "registerUser" (λ v options. register_user runtime v options) arguments

unfoldable pub get_login_url : String
get_login_url = "/v1/auth/login"

unfoldable pub login : {Value : Type 0} → Runtime Value → Value → Option RequestOptions → Sent
login runtime body options = record {
  url = get_login_url;
  options = with_json runtime "POST" body options;
}

unfoldable pub get_login_mutation_options :
    {Value : Type 0} → Runtime Value → Option (MutationArguments (Value)) → MutationSettings (Value)
get_login_mutation_options runtime arguments =
    mutation_options "login" (λ v options. login runtime v options) arguments

unfoldable pub get_accept_invitation_url : String
get_accept_invitation_url = "/v1/auth/invitations/accept"

unfoldable pub accept_invitation :
    {Value : Type 0} → Runtime Value → Value → Option RequestOptions → Sent
accept_invitation runtime body options = record {
  url = get_accept_invitation_url;
  options = with_json runtime "POST" body options;
}

unfoldable pub get_accept_invitation_mutation_options :
    {Value : Type 0} → Runtime Value → Option (MutationArguments (Value)) → MutationSettings (Value)
get_accept_invitation_mutation_options runtime arguments =
    mutation_options "acceptInvitation" (λ v options. accept_invitation runtime v options) arguments

unfoldable pub get_accept_invitation_supabase_url : String
get_accept_invitation_supabase_url = "/v1/auth/invitations/accept-supabase"

unfoldable pub accept_invitation_supabase :
    {Value : Type 0} → Runtime Value → Value → Option RequestOptions → Sent
accept_invitation_supabase runtime body options = record {
  url = get_accept_invitation_supabase_url;
  options = with_json runtime "POST" body options;
}

unfoldable pub get_accept_invitation_supabase_mutation_options :
    {Value : Type 0} → Runtime Value → Option (MutationArguments (Value)) → MutationSettings (Value)
get_accept_invitation_supabase_mutation_options runtime arguments =
    mutation_options "acceptInvitationSupabase"
      (λ v options. accept_invitation_supabase runtime v options) arguments

unfoldable pub get_refresh_token_url : String
get_refresh_token_url = "/v1/auth/refresh"

unfoldable pub refresh_token : Option RequestOptions → Sent
refresh_token options = record { url = get_refresh_token_url; options = with_method "POST" options }

unfoldable pub get_refresh_token_mutation_options :
    Option (MutationArguments (Unit {0})) → MutationSettings (Unit {0})
get_refresh_token_mutation_options arguments =
    mutation_options "refreshToken" (λ v options. refresh_token options) arguments

unfoldable pub get_logout_url : String
get_logout_url = "/v1/auth/logout"

unfoldable pub logout : Option RequestOptions → Sent
logout options = record { url = get_logout_url; options = with_method "POST" options }

unfoldable pub get_logout_mutation_options :
    Option (MutationArguments (Unit {0})) → MutationSettings (Unit {0})
get_logout_mutation_options arguments =
    mutation_options "logout" (λ v options. logout options) arguments

unfoldable pub get_get_current_user_url : String
get_get_current_user_url = "/v1/auth/me"

unfoldable pub get_current_user : Option RequestOptions → Sent
get_current_user options = record {
  url = get_get_current_user_url;
  options = with_method "GET" options;
}

unfoldable pub get_get_current_user_query_key : List String
get_get_current_user_query_key = "/v1/auth/me" ∷ []

unfoldable pub get_get_current_user_query_options : Option QueryArguments → QuerySettings
get_get_current_user_query_options arguments =
    query_options get_get_current_user_query_key (λ options. get_current_user options) absent
      arguments

unfoldable pub get_get_current_user_tenant_url : String
get_get_current_user_tenant_url = "/v1/auth/me/tenant"

unfoldable pub get_current_user_tenant : Option RequestOptions → Sent
get_current_user_tenant options = record {
  url = get_get_current_user_tenant_url;
  options = with_method "GET" options;
}

unfoldable pub get_get_current_user_tenant_query_key : List String
get_get_current_user_tenant_query_key = "/v1/auth/me/tenant" ∷ []

unfoldable pub get_get_current_user_tenant_query_options : Option QueryArguments → QuerySettings
get_get_current_user_tenant_query_options arguments =
    query_options get_get_current_user_tenant_query_key (λ options. get_current_user_tenant options)
      absent arguments
