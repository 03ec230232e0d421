-- ===== src/Client/Api/Evidence.antt =====
-- lib/api-client-react/src/generated/api.ts: the evidence for a parcel, and who it is attributed to.
use development_plan.Base.{String, ◌<>◌, Option, List, [], ◌∷◌, ◌==◌, string_eq, if◌then◌else◌}
use development_plan.Client.{Body}
use development_plan.Client.Api.{
  value, RequestOptions, Runtime, Sent, with_method, with_json, with_body, IdValue, printed,
  is_given,
}
use development_plan.Client.Api.Hooks.{
  QuerySettings, QueryArguments, query_options, MutationSettings, MutationArguments,
  mutation_options,
}

-- The entries of the parameters. The schema has texts; an entry may be undefined or null where the
-- type is not kept.
abbrev pub UploadParcelEvidenceParams : Type 0
UploadParcelEvidenceParams = List (String × IdValue)

-- `normalizedParams` after the loop over the entries.
unfoldable pub normalized_params : UploadParcelEvidenceParams → List (String × String)
normalized_params [] = []
normalized_params ((key, IdValue.undefined) ∷ entries) = normalized_params entries
normalized_params ((key, IdValue.null) ∷ entries) = (key, "null") ∷ normalized_params entries
normalized_params ((key, IdValue.id s) ∷ entries) = (key, s) ∷ normalized_params entries

unfoldable pub get_upload_parcel_evidence_url :
    {Value : Type 0} → Runtime Value → String → UploadParcelEvidenceParams → String
get_upload_parcel_evidence_url runtime parcel_id params =
    let stringified_params = runtime.search_params (normalized_params params) in
    if stringified_params == ""
    then "/v1/parcels/" <> parcel_id <> "/evidence"
    else "/v1/parcels/" <> parcel_id <> "/evidence?" <> stringified_params

unfoldable pub upload_parcel_evidence :
    {Value : Type 0}
    → Runtime Value
    → String
    → Body
    → UploadParcelEvidenceParams
    → Option RequestOptions
    → Sent
upload_parcel_evidence runtime parcel_id body params options = record {
  url = get_upload_parcel_evidence_url runtime parcel_id params;
  options = with_body runtime "POST" "application/octet-stream" body options;
}

unfoldable pub get_upload_parcel_evidence_mutation_options :
    {Value : Type 0}
    → Runtime Value
    → Option (MutationArguments (String × Body × UploadParcelEvidenceParams))
    → MutationSettings (String × Body × UploadParcelEvidenceParams)
get_upload_parcel_evidence_mutation_options runtime arguments =
    mutation_options "uploadParcelEvidence"
      (λ v options. upload_parcel_evidence runtime v.0 v.1 v.2 options) arguments

unfoldable pub get_list_parcel_evidence_url : String → String
get_list_parcel_evidence_url parcel_id = "/v1/parcels/" <> parcel_id <> "/evidence"

unfoldable pub list_parcel_evidence : String → Option RequestOptions → Sent
list_parcel_evidence parcel_id options = record {
  url = get_list_parcel_evidence_url parcel_id;
  options = with_method "GET" options;
}

unfoldable pub get_list_parcel_evidence_query_key : String → List String
get_list_parcel_evidence_query_key parcel_id = ("/v1/parcels/" <> parcel_id <> "/evidence") ∷ []

unfoldable pub get_list_parcel_evidence_query_options :
    IdValue → Option QueryArguments → QuerySettings
get_list_parcel_evidence_query_options parcel_id arguments =
    query_options (get_list_parcel_evidence_query_key (printed parcel_id))
      (λ options. list_parcel_evidence (printed parcel_id) options) (value (is_given parcel_id))
      arguments

unfoldable pub get_record_evidence_attribution_url : String → String
get_record_evidence_attribution_url evidence_id = "/v1/evidence/" <> evidence_id <> "/attributions"

unfoldable pub record_evidence_attribution :
    {Value : Type 0} → Runtime Value → String → Value → Option RequestOptions → Sent
record_evidence_attribution runtime evidence_id body options = record {
  url = get_record_evidence_attribution_url evidence_id;
  options = with_json runtime "POST" body options;
}

unfoldable pub get_record_evidence_attribution_mutation_options :
    {Value : Type 0}
    → Runtime Value
    → Option (MutationArguments (String × Value))
    → MutationSettings (String × Value)
get_record_evidence_attribution_mutation_options runtime arguments =
    mutation_options "recordEvidenceAttribution"
      (λ v options. record_evidence_attribution runtime v.0 v.1 options) arguments

unfoldable pub get_correct_evidence_attribution_url : String → String
get_correct_evidence_attribution_url attribution_id =
    "/v1/evidence/attributions/" <> attribution_id <> "/corrections"

unfoldable pub correct_evidence_attribution :
    {Value : Type 0} → Runtime Value → String → Value → Option RequestOptions → Sent
correct_evidence_attribution runtime attribution_id body options = record {
  url = get_correct_evidence_attribution_url attribution_id;
  options = with_json runtime "POST" body options;
}

unfoldable pub get_correct_evidence_attribution_mutation_options :
    {Value : Type 0}
    → Runtime Value
    → Option (MutationArguments (String × Value))
    → MutationSettings (String × Value)
get_correct_evidence_attribution_mutation_options runtime arguments =
    mutation_options "correctEvidenceAttribution"
      (λ v options. correct_evidence_attribution runtime v.0 v.1 options) arguments
