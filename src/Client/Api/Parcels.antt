-- ===== src/Client/Api/Parcels.antt =====
-- lib/api-client-react/src/generated/api.ts: the parcels and their geometry.
use development_plan.Base.{String, ◌<>◌, Option, List, [], ◌∷◌, string_eq}
use development_plan.Client.Api.{
  absent, value, RequestOptions, Runtime, Sent, with_method, with_json, IdValue, printed, is_given,
}
use development_plan.Client.Api.Hooks.{
  QuerySettings, QueryArguments, query_options, MutationSettings, MutationArguments,
  mutation_options,
}

unfoldable pub get_list_parcels_url : String
get_list_parcels_url = "/v1/parcels"

unfoldable pub list_parcels : Option RequestOptions → Sent
list_parcels options = record { url = get_list_parcels_url; options = with_method "GET" options }

unfoldable pub get_list_parcels_query_key : List String
get_list_parcels_query_key = "/v1/parcels" ∷ []

unfoldable pub get_list_parcels_query_options : Option QueryArguments → QuerySettings
get_list_parcels_query_options arguments =
    query_options get_list_parcels_query_key (λ options. list_parcels options) absent arguments

unfoldable pub get_create_parcel_url : String
get_create_parcel_url = "/v1/parcels"

unfoldable pub create_parcel :
    {Value : Type 0} → Runtime Value → Value → Option RequestOptions → Sent
create_parcel runtime body options = record {
  url = get_create_parcel_url;
  options = with_json runtime "POST" body options;
}

unfoldable pub get_create_parcel_mutation_options :
    {Value : Type 0} → Runtime Value → Option (MutationArguments (Value)) → MutationSettings (Value)
get_create_parcel_mutation_options runtime arguments =
    mutation_options "createParcel" (λ v options. create_parcel runtime v options) arguments

unfoldable pub get_update_parcel_url : String → String
get_update_parcel_url parcel_id = "/v1/parcels/" <> parcel_id

unfoldable pub update_parcel :
    {Value : Type 0} → Runtime Value → String → Value → Option RequestOptions → Sent
update_parcel runtime parcel_id body options = record {
  url = get_update_parcel_url parcel_id;
  options = with_json runtime "PATCH" body options;
}

unfoldable pub get_update_parcel_mutation_options :
    {Value : Type 0}
    → Runtime Value
    → Option (MutationArguments (String × Value))
    → MutationSettings (String × Value)
get_update_parcel_mutation_options runtime arguments =
    mutation_options "updateParcel" (λ v options. update_parcel runtime v.0 v.1 options) arguments

unfoldable pub get_get_parcel_url : String → String
get_get_parcel_url parcel_id = "/v1/parcels/" <> parcel_id

unfoldable pub get_parcel : String → Option RequestOptions → Sent
get_parcel parcel_id options = record {
  url = get_get_parcel_url parcel_id;
  options = with_method "GET" options;
}

unfoldable pub get_get_parcel_query_key : String → List String
get_get_parcel_query_key parcel_id = ("/v1/parcels/" <> parcel_id) ∷ []

unfoldable pub get_get_parcel_query_options : IdValue → Option QueryArguments → QuerySettings
get_get_parcel_query_options parcel_id arguments =
    query_options (get_get_parcel_query_key (printed parcel_id))
      (λ options. get_parcel (printed parcel_id) options) (value (is_given parcel_id)) arguments

unfoldable pub get_archive_parcel_url : String → String
get_archive_parcel_url parcel_id = "/v1/parcels/" <> parcel_id <> "/archive"

unfoldable pub archive_parcel : String → Option RequestOptions → Sent
archive_parcel parcel_id options = record {
  url = get_archive_parcel_url parcel_id;
  options = with_method "POST" options;
}

unfoldable pub get_archive_parcel_mutation_options :
    Option (MutationArguments (String)) → MutationSettings (String)
get_archive_parcel_mutation_options arguments =
    mutation_options "archiveParcel" (λ v options. archive_parcel v options) arguments

unfoldable pub get_set_parcel_geometry_reference_url : String → String
get_set_parcel_geometry_reference_url parcel_id = "/v1/parcels/" <> parcel_id <> "/geometry"

unfoldable pub set_parcel_geometry_reference :
    {Value : Type 0} → Runtime Value → String → Value → Option RequestOptions → Sent
set_parcel_geometry_reference runtime parcel_id body options = record {
  url = get_set_parcel_geometry_reference_url parcel_id;
  options = with_json runtime "PUT" body options;
}

unfoldable pub get_set_parcel_geometry_reference_mutation_options :
    {Value : Type 0}
    → Runtime Value
    → Option (MutationArguments (String × Value))
    → MutationSettings (String × Value)
get_set_parcel_geometry_reference_mutation_options runtime arguments =
    mutation_options "setParcelGeometryReference"
      (λ v options. set_parcel_geometry_reference runtime v.0 v.1 options) arguments

unfoldable pub get_submit_parcel_geometry_url : String → String
get_submit_parcel_geometry_url parcel_id = "/v1/spatial/parcels/" <> parcel_id <> "/geometry"

unfoldable pub submit_parcel_geometry :
    {Value : Type 0} → Runtime Value → String → Value → Option RequestOptions → Sent
submit_parcel_geometry runtime parcel_id body options = record {
  url = get_submit_parcel_geometry_url parcel_id;
  options = with_json runtime "PUT" body options;
}

unfoldable pub get_submit_parcel_geometry_mutation_options :
    {Value : Type 0}
    → Runtime Value
    → Option (MutationArguments (String × Value))
    → MutationSettings (String × Value)
get_submit_parcel_geometry_mutation_options runtime arguments =
    mutation_options "submitParcelGeometry"
      (λ v options. submit_parcel_geometry runtime v.0 v.1 options) arguments

unfoldable pub get_get_active_parcel_geometry_url : String → String
get_get_active_parcel_geometry_url parcel_id = "/v1/spatial/parcels/" <> parcel_id <> "/geometry"

unfoldable pub get_active_parcel_geometry : String → Option RequestOptions → Sent
get_active_parcel_geometry parcel_id options = record {
  url = get_get_active_parcel_geometry_url parcel_id;
  options = with_method "GET" options;
}

unfoldable pub get_get_active_parcel_geometry_query_key : String → List String
get_get_active_parcel_geometry_query_key parcel_id =
    ("/v1/spatial/parcels/" <> parcel_id <> "/geometry") ∷ []

unfoldable pub get_get_active_parcel_geometry_query_options :
    IdValue → Option QueryArguments → QuerySettings
get_get_active_parcel_geometry_query_options parcel_id arguments =
    query_options (get_get_active_parcel_geometry_query_key (printed parcel_id))
      (λ options. get_active_parcel_geometry (printed parcel_id) options)
      (value (is_given parcel_id)) arguments
