-- ===== src/Client/Api/Routing/Evidence.antt =====
-- The routes of the requests in Evidence.
use Prim.Native.Char.{Char}
use native.Mathlib.Decide.{ℕ_discrete}
use mathlib.Core.Logic.{if_pos, if_neg}
use text.Mathlib.TextLemmas.{append_assoc}
use development_plan.Base.{
  String, ◌<>◌, ◌≡◌, refl, ap, ◌∙◌, Option, some, [], ◌∷◌, string_eq, arith, All, ◌⊎◌, inl, inr,
}
use development_plan.Mockup.Texts.{same_char, split}
use development_plan.Client.Api.{Runtime, RequestOptions, with_method, with_json, with_body}
use development_plan.Client.Api.Evidence
use development_plan.Client.Api.Operations.Evidence as Calls
use development_plan.Client.Api.Operations.Evidence.{
  upload_parcel_evidence, list_parcel_evidence, record_evidence_attribution,
  correct_evidence_attribution,
}
use development_plan.Client.Api.Paths.{lacks, before_query, before_query-query, segments, IsPlain}
use development_plan.Client.Api.Routes.{
  route, piece, fits, find_route, routes, find_request, health_routes, auth_routes, admin_routes,
  parcel_routes, spatial_routes, evidence_routes, attribution_routes,
}
use development_plan.Client.Api.Routing.Ids.{Found, at_middle}

-- An id that reads "attributions" does not make the correction fit the route of the recording.
correction :
    (c : Char) (s : String)
    → Found "POST"
        ("" ∷ "v1" ∷ "evidence" ∷ "attributions" ∷ String.◌∷◌ c s ∷ "corrections" ∷ [])
        "correctEvidenceAttribution"
        (String.◌∷◌ c s ∷ [])
unfolding routes health_routes auth_routes admin_routes parcel_routes spatial_routes evidence_routes
    attribution_routes route piece split same_char ℕ_discrete find_route fits string_eq
correction c s = ground arith

-- The address of the upload, with nothing in its query and with parameters.
pub upload_url-cases :
    {Value : Type 0} (runtime : Runtime Value) (parcel_id : String)
    (params : Evidence.UploadParcelEvidenceParams)
    → let query = runtime.search_params (Evidence.normalized_params params) in
      let url = Evidence.get_upload_parcel_evidence_url runtime parcel_id params in
      (url ≡ "/v1/parcels/" <> parcel_id <> "/evidence")
      ⊎ (url ≡ "/v1/parcels/" <> parcel_id <> ("/evidence" <> ("?" <> query)))
unfolding Evidence.get_upload_parcel_evidence_url
upload_url-cases runtime parcel_id params =
    let query = runtime.search_params (Evidence.normalized_params params) in
    elim (string_eq.dec query "") [
      | yes e ↦ inl (rw (if_pos _ e) refl)
      | no n ↦ inr (
          rw (if_neg _ n) (
            ap (λ action. "/v1/parcels/" <> parcel_id <> action)
              (append_assoc "/evidence" "?" query)))
    ]

uploaded :
    {Value : Type 0} (runtime : Runtime Value) (parcel_id : String)
    (params : Evidence.UploadParcelEvidenceParams)
    → IsPlain parcel_id
    → Found "POST"
        (segments (Evidence.get_upload_parcel_evidence_url runtime parcel_id params))
        "uploadParcelEvidence"
        (parcel_id ∷ [])
unfolding routes health_routes auth_routes admin_routes parcel_routes spatial_routes evidence_routes
    attribution_routes route piece split same_char ℕ_discrete find_route fits string_eq before_query
    lacks
uploaded runtime parcel_id params plain =
    let query = runtime.search_params (Evidence.normalized_params params) in
    let at = λ (action : String) (a : split "/" (before_query action) ≡ ("" ∷ "evidence" ∷ [])).
      at_middle "POST" "uploadParcelEvidence" "/v1/parcels/" ("" ∷ "v1" ∷ "parcels" ∷ []) parcel_id
        action ("evidence" ∷ []) (λ c s. refl) plain refl refl a in
    elim (upload_url-cases runtime parcel_id params) [
      | inl e ↦ ap (λ url. find_route routes "POST" (segments url)) e ∙ at "/evidence" refl
      | inr e ↦
          ap (λ url. find_route routes "POST" (segments url)) e
          ∙ at ("/evidence" <> ("?" <> query))
              (ap (split "/") (before_query-query "/evidence" query refl))
    ]

pub evidence-routed :
    {Value : Type 0} (runtime : Runtime Value) (call : Calls.EvidenceCall Value)
    (options : Option RequestOptions)
    → All IsPlain (Calls.ids call)
    → find_request (Calls.sent runtime call options)
      ≡ some (Calls.operation_id call, Calls.ids call)
unfolding routes health_routes auth_routes admin_routes parcel_routes spatial_routes evidence_routes
    attribution_routes route piece split same_char ℕ_discrete find_route fits string_eq before_query
    segments lacks find_request Calls.sent Calls.operation_id Calls.ids with_method with_json
    with_body Evidence.upload_parcel_evidence Evidence.get_upload_parcel_evidence_url
    Evidence.list_parcel_evidence Evidence.get_list_parcel_evidence_url
    Evidence.record_evidence_attribution Evidence.get_record_evidence_attribution_url
    Evidence.correct_evidence_attribution Evidence.get_correct_evidence_attribution_url
evidence-routed runtime (upload_parcel_evidence parcel_id body params) options plain =
    uploaded runtime parcel_id params plain.0
evidence-routed runtime (list_parcel_evidence parcel_id) options plain =
    at_middle "GET" "listParcelEvidence" "/v1/parcels/" ("" ∷ "v1" ∷ "parcels" ∷ []) parcel_id
      "/evidence" ("evidence" ∷ []) (λ c s. refl) plain.0 refl refl refl
evidence-routed runtime (record_evidence_attribution evidence_id _) options plain =
    at_middle "POST" "recordEvidenceAttribution" "/v1/evidence/" ("" ∷ "v1" ∷ "evidence" ∷ [])
      evidence_id "/attributions" ("attributions" ∷ []) (λ c s. refl) plain.0 refl refl refl
evidence-routed runtime (correct_evidence_attribution attribution_id _) options plain =
    at_middle "POST" "correctEvidenceAttribution" "/v1/evidence/attributions/"
      ("" ∷ "v1" ∷ "evidence" ∷ "attributions" ∷ []) attribution_id "/corrections"
      ("corrections" ∷ []) correction plain.0 refl refl refl
