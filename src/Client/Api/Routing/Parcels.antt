-- ===== src/Client/Api/Routing/Parcels.antt =====
-- The routes of the requests in Parcels.
use native.Mathlib.Decide.{ℕ_discrete}
use development_plan.Base.{◌≡◌, refl, Option, some, [], ◌∷◌, string_eq, All}
use development_plan.Mockup.Texts.{same_char, split}
use development_plan.Client.Api.{Runtime, RequestOptions, with_method, with_json, with_body}
use development_plan.Client.Api.Parcels
use development_plan.Client.Api.Operations.Parcels as Calls
use development_plan.Client.Api.Operations.Parcels.{
  list_parcels, create_parcel, update_parcel, get_parcel, archive_parcel,
  set_parcel_geometry_reference, submit_parcel_geometry, get_active_parcel_geometry,
}
use development_plan.Client.Api.Paths.{lacks, before_query, segments, IsPlain}
use development_plan.Client.Api.Routes.{
  route, piece, fits, find_route, routes, find_request, health_routes, auth_routes, admin_routes,
  parcel_routes, spatial_routes, evidence_routes, attribution_routes,
}
use development_plan.Client.Api.Routing.Ids.{at_last, at_middle}

pub parcel-routed :
    {Value : Type 0} (runtime : Runtime Value) (call : Calls.ParcelCall Value)
    (options : Option RequestOptions)
    → All IsPlain (Calls.ids call)
    → find_request (Calls.sent runtime call options)
      ≡ some (Calls.operation_id call, Calls.ids call)
unfolding routes health_routes auth_routes admin_routes parcel_routes spatial_routes evidence_routes
    attribution_routes route piece split same_char ℕ_discrete find_route fits string_eq before_query
    segments lacks find_request Calls.sent Calls.operation_id Calls.ids with_method with_json
    with_body Parcels.list_parcels Parcels.get_list_parcels_url Parcels.create_parcel
    Parcels.get_create_parcel_url Parcels.update_parcel Parcels.get_update_parcel_url
    Parcels.get_parcel Parcels.get_get_parcel_url Parcels.archive_parcel
    Parcels.get_archive_parcel_url Parcels.set_parcel_geometry_reference
    Parcels.get_set_parcel_geometry_reference_url Parcels.submit_parcel_geometry
    Parcels.get_submit_parcel_geometry_url Parcels.get_active_parcel_geometry
    Parcels.get_get_active_parcel_geometry_url
parcel-routed runtime list_parcels options plain = refl
parcel-routed runtime (create_parcel _) options plain = refl
parcel-routed runtime (update_parcel parcel_id _) options plain =
    at_last "PATCH" "updateParcel" "/v1/parcels/" ("" ∷ "v1" ∷ "parcels" ∷ []) parcel_id
      (λ c s. refl) plain.0 refl refl
parcel-routed runtime (get_parcel parcel_id) options plain =
    at_last "GET" "getParcel" "/v1/parcels/" ("" ∷ "v1" ∷ "parcels" ∷ []) parcel_id (λ c s. refl)
      plain.0 refl refl
parcel-routed runtime (archive_parcel parcel_id) options plain =
    at_middle "POST" "archiveParcel" "/v1/parcels/" ("" ∷ "v1" ∷ "parcels" ∷ []) parcel_id
      "/archive" ("archive" ∷ []) (λ c s. refl) plain.0 refl refl refl
parcel-routed runtime (set_parcel_geometry_reference parcel_id _) options plain =
    at_middle "PUT" "setParcelGeometryReference" "/v1/parcels/" ("" ∷ "v1" ∷ "parcels" ∷ [])
      parcel_id "/geometry" ("geometry" ∷ []) (λ c s. refl) plain.0 refl refl refl
parcel-routed runtime (submit_parcel_geometry parcel_id _) options plain =
    at_middle "PUT" "submitParcelGeometry" "/v1/spatial/parcels/"
      ("" ∷ "v1" ∷ "spatial" ∷ "parcels" ∷ []) parcel_id "/geometry" ("geometry" ∷ []) (λ c s. refl)
      plain.0 refl refl refl
parcel-routed runtime (get_active_parcel_geometry parcel_id) options plain =
    at_middle "GET" "getActiveParcelGeometry" "/v1/spatial/parcels/"
      ("" ∷ "v1" ∷ "spatial" ∷ "parcels" ∷ []) parcel_id "/geometry" ("geometry" ∷ []) (λ c s. refl)
      plain.0 refl refl refl
