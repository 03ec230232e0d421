-- ===== src/Client/Api/Tenants.antt =====
-- lib/api-client-react/src/generated/api.ts: the roles, invitations and tenants that an administrator keeps.
use development_plan.Base.{String, ◌<>◌, Option, List, [], ◌∷◌, string_eq}
use development_plan.Client.Api.{
  absent, value, RequestOptions, Runtime, Sent, with_method, with_json, IdValue, printed, is_given,
}
use development_plan.Client.Api.Hooks.{
  QuerySettings, QueryArguments, query_options, MutationSettings, MutationArguments,
  mutation_options,
}

unfoldable pub get_assign_role_url : String → String
get_assign_role_url user_id = "/v1/admin/users/" <> user_id <> "/roles"

unfoldable pub assign_role :
    {Value : Type 0} → Runtime Value → String → Value → Option RequestOptions → Sent
assign_role runtime user_id body options = record {
  url = get_assign_role_url user_id;
  options = with_json runtime "POST" body options;
}

unfoldable pub get_assign_role_mutation_options :
    {Value : Type 0}
    → Runtime Value
    → Option (MutationArguments (String × Value))
    → MutationSettings (String × Value)
get_assign_role_mutation_options runtime arguments =
    mutation_options "assignRole" (λ v options. assign_role runtime v.0 v.1 options) arguments

unfoldable pub get_list_invitations_url : String
get_list_invitations_url = "/v1/admin/invitations"

unfoldable pub list_invitations : Option RequestOptions → Sent
list_invitations options = record {
  url = get_list_invitations_url;
  options = with_method "GET" options;
}

unfoldable pub get_list_invitations_query_key : List String
get_list_invitations_query_key = "/v1/admin/invitations" ∷ []

unfoldable pub get_list_invitations_query_options : Option QueryArguments → QuerySettings
get_list_invitations_query_options arguments =
    query_options get_list_invitations_query_key (λ options. list_invitations options) absent
      arguments

unfoldable pub get_create_invitation_url : String
get_create_invitation_url = "/v1/admin/invitations"

unfoldable pub create_invitation :
    {Value : Type 0} → Runtime Value → Value → Option RequestOptions → Sent
create_invitation runtime body options = record {
  url = get_create_invitation_url;
  options = with_json runtime "POST" body options;
}

unfoldable pub get_create_invitation_mutation_options :
    {Value : Type 0} → Runtime Value → Option (MutationArguments (Value)) → MutationSettings (Value)
get_create_invitation_mutation_options runtime arguments =
    mutation_options "createInvitation" (λ v options. create_invitation runtime v options) arguments

unfoldable pub get_revoke_invitation_url : String → String
get_revoke_invitation_url invitation_id = "/v1/admin/invitations/" <> invitation_id <> "/revoke"

unfoldable pub revoke_invitation : String → Option RequestOptions → Sent
revoke_invitation invitation_id options = record {
  url = get_revoke_invitation_url invitation_id;
  options = with_method "POST" options;
}

unfoldable pub get_revoke_invitation_mutation_options :
    Option (MutationArguments (String)) → MutationSettings (String)
get_revoke_invitation_mutation_options arguments =
    mutation_options "revokeInvitation" (λ v options. revoke_invitation v options) arguments

unfoldable pub get_list_tenants_url : String
get_list_tenants_url = "/v1/admin/tenants"

unfoldable pub list_tenants : Option RequestOptions → Sent
list_tenants options = record { url = get_list_tenants_url; options = with_method "GET" options }

unfoldable pub get_list_tenants_query_key : List String
get_list_tenants_query_key = "/v1/admin/tenants" ∷ []

unfoldable pub get_list_tenants_query_options : Option QueryArguments → QuerySettings
get_list_tenants_query_options arguments =
    query_options get_list_tenants_query_key (λ options. list_tenants options) absent arguments

unfoldable pub get_get_tenant_url : String → String
get_get_tenant_url tenant_id = "/v1/admin/tenants/" <> tenant_id

unfoldable pub get_tenant : String → Option RequestOptions → Sent
get_tenant tenant_id options = record {
  url = get_get_tenant_url tenant_id;
  options = with_method "GET" options;
}

unfoldable pub get_get_tenant_query_key : String → List String
get_get_tenant_query_key tenant_id = ("/v1/admin/tenants/" <> tenant_id) ∷ []

unfoldable pub get_get_tenant_query_options : IdValue → Option QueryArguments → QuerySettings
get_get_tenant_query_options tenant_id arguments =
    query_options (get_get_tenant_query_key (printed tenant_id))
      (λ options. get_tenant (printed tenant_id) options) (value (is_given tenant_id)) arguments

unfoldable pub get_suspend_tenant_url : String → String
get_suspend_tenant_url tenant_id = "/v1/admin/tenants/" <> tenant_id <> "/suspend"

unfoldable pub suspend_tenant :
    {Value : Type 0} → Runtime Value → String → Value → Option RequestOptions → Sent
suspend_tenant runtime tenant_id body options = record {
  url = get_suspend_tenant_url tenant_id;
  options = with_json runtime "POST" body options;
}

unfoldable pub get_suspend_tenant_mutation_options :
    {Value : Type 0}
    → Runtime Value
    → Option (MutationArguments (String × Value))
    → MutationSettings (String × Value)
get_suspend_tenant_mutation_options runtime arguments =
    mutation_options "suspendTenant" (λ v options. suspend_tenant runtime v.0 v.1 options) arguments

unfoldable pub get_reactivate_tenant_url : String → String
get_reactivate_tenant_url tenant_id = "/v1/admin/tenants/" <> tenant_id <> "/reactivate"

unfoldable pub reactivate_tenant : String → Option RequestOptions → Sent
reactivate_tenant tenant_id options = record {
  url = get_reactivate_tenant_url tenant_id;
  options = with_method "POST" options;
}

unfoldable pub get_reactivate_tenant_mutation_options :
    Option (MutationArguments (String)) → MutationSettings (String)
get_reactivate_tenant_mutation_options arguments =
    mutation_options "reactivateTenant" (λ v options. reactivate_tenant v options) arguments

unfoldable pub get_archive_tenant_url : String → String
get_archive_tenant_url tenant_id = "/v1/admin/tenants/" <> tenant_id <> "/archive"

unfoldable pub archive_tenant : String → Option RequestOptions → Sent
archive_tenant tenant_id options = record {
  url = get_archive_tenant_url tenant_id;
  options = with_method "POST" options;
}

unfoldable pub get_archive_tenant_mutation_options :
    Option (MutationArguments (String)) → MutationSettings (String)
get_archive_tenant_mutation_options arguments =
    mutation_options "archiveTenant" (λ v options. archive_tenant v options) arguments
