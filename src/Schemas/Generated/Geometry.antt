-- ===== src/Schemas/Generated/Geometry.antt =====
-- lib/api-zod/src/generated/api.ts: where parcels lie.
use development_plan.Base.{[], ◌∷◌}
use development_plan.Schemas.Zod.{
  Schema, string, number, null, coerce_string, enum, optional, describe, union, object, keys,
}

abbrev pub set_parcel_geometry_reference_params : Schema
set_parcel_geometry_reference_params = object (keys (("parcel_id", coerce_string) ∷ []))

abbrev pub set_parcel_geometry_reference_body : Schema
set_parcel_geometry_reference_body =
    describe (object (keys (("geometry_reference", optional (union string null)) ∷ [])))

abbrev pub set_parcel_geometry_reference_response : Schema
set_parcel_geometry_reference_response = describe (
    object (
      keys (
        ("parcel_id", string)
        ∷ ("tenant_id", string)
        ∷ ("country_code", string)
        ∷ ("origin", string)
        ∷ ("created_by", string)
        ∷ ("status", describe (enum ("ACTIVE" ∷ "ARCHIVED" ∷ [])))
        ∷ ("parcel_number", optional (union string null))
        ∷ ("title", optional (union string null))
        ∷ ("address", optional (union string null))
        ∷ ("state", optional (union string null))
        ∷ ("lga", optional (union string null))
        ∷ ("ward", optional (union string null))
        ∷ ("community", optional (union string null))
        ∷ ("property_type", optional (union string null))
        ∷ ("size_sqm", optional (union number null))
        ∷ ("ownership_type", optional (union string null))
        ∷ ("current_owner_name", optional (union string null))
        ∷ ("current_owner_contact", optional (union string null))
        ∷ ("created_at", string)
        ∷ ("updated_at", string)
        ∷ ("archived_at", optional (union string null))
        ∷ ("geometry_reference", optional (union string null))
        ∷ [])))

abbrev pub submit_parcel_geometry_params : Schema
submit_parcel_geometry_params = object (keys (("parcel_id", coerce_string) ∷ []))

abbrev pub submit_parcel_geometry_body : Schema
submit_parcel_geometry_body = object (keys (("boundary", string) ∷ []))

abbrev pub submit_parcel_geometry_response : Schema
submit_parcel_geometry_response = describe (
    object (
      keys (
        ("geometry_id", string)
        ∷ ("tenant_id", string)
        ∷ ("parcel_id", string)
        ∷ ("boundary", string)
        ∷ ("srid", number)
        ∷ ("status", describe (enum ("ACTIVE" ∷ "SUPERSEDED" ∷ [])))
        ∷ ("created_by", string)
        ∷ ("created_at", string)
        ∷ ("superseded_at", optional (union string null))
        ∷ [])))

abbrev pub get_active_parcel_geometry_params : Schema
get_active_parcel_geometry_params = object (keys (("parcel_id", coerce_string) ∷ []))

abbrev pub get_active_parcel_geometry_response : Schema
get_active_parcel_geometry_response = describe (
    object (
      keys (
        ("geometry_id", string)
        ∷ ("tenant_id", string)
        ∷ ("parcel_id", string)
        ∷ ("boundary", string)
        ∷ ("srid", number)
        ∷ ("status", describe (enum ("ACTIVE" ∷ "SUPERSEDED" ∷ [])))
        ∷ ("created_by", string)
        ∷ ("created_at", string)
        ∷ ("superseded_at", optional (union string null))
        ∷ [])))
