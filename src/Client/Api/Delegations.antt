-- ===== src/Client/Api/Delegations.antt =====
-- lib/api-client-react/src/generated/api.ts: the delegations of authority.
use development_plan.Base.{String, ◌<>◌, Option, List, [], ◌∷◌, string_eq}
use development_plan.Client.Api.{
  absent, value, RequestOptions, Runtime, Sent, with_method, with_json, IdValue, printed, is_given,
}
use development_plan.Client.Api.Hooks.{
  QuerySettings, QueryArguments, query_options, MutationSettings, MutationArguments,
  mutation_options,
}

unfoldable pub get_list_delegations_url : String
get_list_delegations_url = "/v1/admin/delegations"

unfoldable pub list_delegations : Option RequestOptions → Sent
list_delegations options = record {
  url = get_list_delegations_url;
  options = with_method "GET" options;
}

unfoldable pub get_list_delegations_query_key : List String
get_list_delegations_query_key = "/v1/admin/delegations" ∷ []

unfoldable pub get_list_delegations_query_options : Option QueryArguments → QuerySettings
get_list_delegations_query_options arguments =
    query_options get_list_delegations_query_key (λ options. list_delegations options) absent
      arguments

unfoldable pub get_create_delegation_url : String
get_create_delegation_url = "/v1/admin/delegations"

unfoldable pub create_delegation :
    {Value : Type 0} → Runtime Value → Value → Option RequestOptions → Sent
create_delegation runtime body options = record {
  url = get_create_delegation_url;
  options = with_json runtime "POST" body options;
}

unfoldable pub get_create_delegation_mutation_options :
    {Value : Type 0} → Runtime Value → Option (MutationArguments (Value)) → MutationSettings (Value)
get_create_delegation_mutation_options runtime arguments =
    mutation_options "createDelegation" (λ v options. create_delegation runtime v options) arguments

unfoldable pub get_get_delegation_url : String → String
get_get_delegation_url delegation_id = "/v1/admin/delegations/" <> delegation_id

unfoldable pub get_delegation : String → Option RequestOptions → Sent
get_delegation delegation_id options = record {
  url = get_get_delegation_url delegation_id;
  options = with_method "GET" options;
}

unfoldable pub get_get_delegation_query_key : String → List String
get_get_delegation_query_key delegation_id = ("/v1/admin/delegations/" <> delegation_id) ∷ []

unfoldable pub get_get_delegation_query_options : IdValue → Option QueryArguments → QuerySettings
get_get_delegation_query_options delegation_id arguments =
    query_options (get_get_delegation_query_key (printed delegation_id))
      (λ options. get_delegation (printed delegation_id) options) (value (is_given delegation_id))
      arguments

unfoldable pub get_revoke_delegation_url : String → String
get_revoke_delegation_url delegation_id = "/v1/admin/delegations/" <> delegation_id <> "/revoke"

unfoldable pub revoke_delegation : String → Option RequestOptions → Sent
revoke_delegation delegation_id options = record {
  url = get_revoke_delegation_url delegation_id;
  options = with_method "POST" options;
}

unfoldable pub get_revoke_delegation_mutation_options :
    Option (MutationArguments (String)) → MutationSettings (String)
get_revoke_delegation_mutation_options arguments =
    mutation_options "revokeDelegation" (λ v options. revoke_delegation v options) arguments

unfoldable pub get_extend_delegation_url : String → String
get_extend_delegation_url delegation_id = "/v1/admin/delegations/" <> delegation_id <> "/extend"

unfoldable pub extend_delegation :
    {Value : Type 0} → Runtime Value → String → Value → Option RequestOptions → Sent
extend_delegation runtime delegation_id body options = record {
  url = get_extend_delegation_url delegation_id;
  options = with_json runtime "POST" body options;
}

unfoldable pub get_extend_delegation_mutation_options :
    {Value : Type 0}
    → Runtime Value
    → Option (MutationArguments (String × Value))
    → MutationSettings (String × Value)
get_extend_delegation_mutation_options runtime arguments =
    mutation_options "extendDelegation" (λ v options. extend_delegation runtime v.0 v.1 options)
      arguments
