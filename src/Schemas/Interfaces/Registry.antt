-- ===== src/Schemas/Interfaces/Registry.antt =====
-- lib/api-client-react/src/generated/api.schemas.ts: the types of the parcels and their geometry.
use development_plan.Base.{[], ◌∷◌}
use development_plan.Schemas.Types.{
  Shape, string, number, null, literals, union, interface, required, optional, properties,
}

abbrev pub create_parcel_request : Shape
create_parcel_request = interface (
    properties (
      optional "country_code" (union string null)
      ∷ optional "title" (union string null)
      ∷ optional "address" (union string null)
      ∷ optional "state" (union string null)
      ∷ optional "lga" (union string null)
      ∷ optional "ward" (union string null)
      ∷ optional "community" (union string null)
      ∷ optional "property_type" (union string null)
      ∷ optional "size_sqm" (union number null)
      ∷ optional "ownership_type" (union string null)
      ∷ optional "current_owner_name" (union string null)
      ∷ optional "current_owner_contact" (union string null)
      ∷ []))

abbrev pub geometry_status : Shape
geometry_status = literals ("ACTIVE" ∷ "SUPERSEDED" ∷ [])

abbrev pub geometry_response : Shape
geometry_response = interface (
    properties (
      required "geometry_id" string
      ∷ required "tenant_id" string
      ∷ required "parcel_id" string
      ∷ required "boundary" string
      ∷ required "srid" number
      ∷ required "status" geometry_status
      ∷ required "created_by" string
      ∷ required "created_at" string
      ∷ optional "superseded_at" (union string null)
      ∷ []))

abbrev pub parcel_status : Shape
parcel_status = literals ("ACTIVE" ∷ "ARCHIVED" ∷ [])

abbrev pub parcel : Shape
parcel = interface (
    properties (
      required "parcel_id" string
      ∷ required "tenant_id" string
      ∷ required "country_code" string
      ∷ required "origin" string
      ∷ required "created_by" string
      ∷ required "status" parcel_status
      ∷ optional "parcel_number" (union string null)
      ∷ optional "title" (union string null)
      ∷ optional "address" (union string null)
      ∷ optional "state" (union string null)
      ∷ optional "lga" (union string null)
      ∷ optional "ward" (union string null)
      ∷ optional "community" (union string null)
      ∷ optional "property_type" (union string null)
      ∷ optional "size_sqm" (union number null)
      ∷ optional "ownership_type" (union string null)
      ∷ optional "current_owner_name" (union string null)
      ∷ optional "current_owner_contact" (union string null)
      ∷ required "created_at" string
      ∷ required "updated_at" string
      ∷ optional "archived_at" (union string null)
      ∷ optional "geometry_reference" (union string null)
      ∷ []))

abbrev pub set_geometry_reference_request : Shape
set_geometry_reference_request =
    interface (properties (optional "geometry_reference" (union string null) ∷ []))

abbrev pub submit_geometry_request : Shape
submit_geometry_request = interface (properties (required "boundary" string ∷ []))

abbrev pub update_parcel_request : Shape
update_parcel_request = interface (
    properties (
      optional "title" (union string null)
      ∷ optional "address" (union string null)
      ∷ optional "state" (union string null)
      ∷ optional "lga" (union string null)
      ∷ optional "ward" (union string null)
      ∷ optional "community" (union string null)
      ∷ optional "property_type" (union string null)
      ∷ optional "size_sqm" (union number null)
      ∷ optional "ownership_type" (union string null)
      ∷ optional "current_owner_name" (union string null)
      ∷ optional "current_owner_contact" (union string null)
      ∷ []))
