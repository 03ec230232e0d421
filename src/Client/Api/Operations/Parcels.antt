-- ===== src/Client/Api/Operations/Parcels.antt =====
-- lib/api-client-react/src/generated/api.ts: the calls of the functions in Parcels.
use development_plan.Base.{String, Option, List, [], ◌∷◌}
use development_plan.Client.Api.{Runtime, RequestOptions, Sent}
use development_plan.Client.Api.Parcels

-- A call by its function and arguments, ids first.
pub data ParcelCall (Value : Type 0) : Type 0 where
  list_parcels : ParcelCall Value
  create_parcel : Value → ParcelCall Value
  update_parcel : String → Value → ParcelCall Value
  get_parcel : String → ParcelCall Value
  archive_parcel : String → ParcelCall Value
  set_parcel_geometry_reference : String → Value → ParcelCall Value
  submit_parcel_geometry : String → Value → ParcelCall Value
  get_active_parcel_geometry : String → ParcelCall Value

unfoldable pub sent :
    {Value : Type 0} → Runtime Value → ParcelCall Value → Option RequestOptions → Sent
sent runtime list_parcels options = Parcels.list_parcels options
sent runtime (create_parcel body) options = Parcels.create_parcel runtime body options
sent runtime (update_parcel parcel_id body) options =
    Parcels.update_parcel runtime parcel_id body options
sent runtime (get_parcel parcel_id) options = Parcels.get_parcel parcel_id options
sent runtime (archive_parcel parcel_id) options = Parcels.archive_parcel parcel_id options
sent runtime (set_parcel_geometry_reference parcel_id body) options =
    Parcels.set_parcel_geometry_reference runtime parcel_id body options
sent runtime (submit_parcel_geometry parcel_id body) options =
    Parcels.submit_parcel_geometry runtime parcel_id body options
sent runtime (get_active_parcel_geometry parcel_id) options =
    Parcels.get_active_parcel_geometry parcel_id options

-- The name of the operation in the OpenAPI document.
unfoldable pub operation_id : {Value : Type 0} → ParcelCall Value → String
operation_id list_parcels = "listParcels"
operation_id (create_parcel _) = "createParcel"
operation_id (update_parcel _ _) = "updateParcel"
operation_id (get_parcel _) = "getParcel"
operation_id (archive_parcel _) = "archiveParcel"
operation_id (set_parcel_geometry_reference _ _) = "setParcelGeometryReference"
operation_id (submit_parcel_geometry _ _) = "submitParcelGeometry"
operation_id (get_active_parcel_geometry _) = "getActiveParcelGeometry"

unfoldable pub ids : {Value : Type 0} → ParcelCall Value → List String
ids list_parcels = []
ids (create_parcel _) = []
ids (update_parcel parcel_id _) = parcel_id ∷ []
ids (get_parcel parcel_id) = parcel_id ∷ []
ids (archive_parcel parcel_id) = parcel_id ∷ []
ids (set_parcel_geometry_reference parcel_id _) = parcel_id ∷ []
ids (submit_parcel_geometry parcel_id _) = parcel_id ∷ []
ids (get_active_parcel_geometry parcel_id) = parcel_id ∷ []
