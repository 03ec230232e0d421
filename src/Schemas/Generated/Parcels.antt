-- ===== src/Schemas/Generated/Parcels.antt =====
-- lib/api-zod/src/generated/api.ts: the parcels and their geometry.
use development_plan.Base.{[], ◌∷◌}
use development_plan.Schemas.Zod.{
  Schema, string, number, null, coerce_string, enum, optional, describe, union, array, object, keys,
}

abbrev pub list_parcels_response_item : Schema
list_parcels_response_item = describe (
    object (
      keys (
        ("parcel_id", string)
        ∷ ("tenant_id", string)
        ∷ ("country_code", string)
        ∷ ("origin", string)
        ∷ ("created_by", string)
        ∷ ("status", describe (enum ("ACTIVE" ∷ "ARCHIVED" ∷ [])))
        ∷ ("parcel_number", optional (union string null))
        ∷ ("title", optional (union string null))
        ∷ ("address", optional (union string null))
        ∷ ("state", optional (union string null))
        ∷ ("lga", optional (union string null))
        ∷ ("ward", optional (union string null))
        ∷ ("community", optional (union string null))
        ∷ ("property_type", optional (union string null))
        ∷ ("size_sqm", optional (union number null))
        ∷ ("ownership_type", optional (union string null))
        ∷ ("current_owner_name", optional (union string null))
        ∷ ("current_owner_contact", optional (union string null))
        ∷ ("created_at", string)
        ∷ ("updated_at", string)
        ∷ ("archived_at", optional (union string null))
        ∷ ("geometry_reference", optional (union string null))
        ∷ [])))

abbrev pub list_parcels_response : Schema
list_parcels_response = array list_parcels_response_item

abbrev pub create_parcel_body : Schema
create_parcel_body = object (
    keys (
      ("country_code", optional (union string null))
      ∷ ("title", optional (union string null))
      ∷ ("address", optional (union string null))
      ∷ ("state", optional (union string null))
      ∷ ("lga", optional (union string null))
      ∷ ("ward", optional (union string null))
      ∷ ("community", optional (union string null))
      ∷ ("property_type", optional (union string null))
      ∷ ("size_sqm", optional (union number null))
      ∷ ("ownership_type", optional (union string null))
      ∷ ("current_owner_name", optional (union string null))
      ∷ ("current_owner_contact", optional (union string null))
      ∷ []))

abbrev pub create_parcel_response : Schema
create_parcel_response = describe (
    object (
      keys (
        ("parcel_id", string)
        ∷ ("tenant_id", string)
        ∷ ("country_code", string)
        ∷ ("origin", string)
        ∷ ("created_by", string)
        ∷ ("status", describe (enum ("ACTIVE" ∷ "ARCHIVED" ∷ [])))
        ∷ ("parcel_number", optional (union string null))
        ∷ ("title", optional (union string null))
        ∷ ("address", optional (union string null))
        ∷ ("state", optional (union string null))
        ∷ ("lga", optional (union string null))
        ∷ ("ward", optional (union string null))
        ∷ ("community", optional (union string null))
        ∷ ("property_type", optional (union string null))
        ∷ ("size_sqm", optional (union number null))
        ∷ ("ownership_type", optional (union string null))
        ∷ ("current_owner_name", optional (union string null))
        ∷ ("current_owner_contact", optional (union string null))
        ∷ ("created_at", string)
        ∷ ("updated_at", string)
        ∷ ("archived_at", optional (union string null))
        ∷ ("geometry_reference", optional (union string null))
        ∷ [])))

abbrev pub update_parcel_params : Schema
update_parcel_params = object (keys (("parcel_id", coerce_string) ∷ []))

abbrev pub update_parcel_body : Schema
update_parcel_body = describe (
    object (
      keys (
        ("title", optional (union string null))
        ∷ ("address", optional (union string null))
        ∷ ("state", optional (union string null))
        ∷ ("lga", optional (union string null))
        ∷ ("ward", optional (union string null))
        ∷ ("community", optional (union string null))
        ∷ ("property_type", optional (union string null))
        ∷ ("size_sqm", optional (union number null))
        ∷ ("ownership_type", optional (union string null))
        ∷ ("current_owner_name", optional (union string null))
        ∷ ("current_owner_contact", optional (union string null))
        ∷ [])))

abbrev pub update_parcel_response : Schema
update_parcel_response = describe (
    object (
      keys (
        ("parcel_id", string)
        ∷ ("tenant_id", string)
        ∷ ("country_code", string)
        ∷ ("origin", string)
        ∷ ("created_by", string)
        ∷ ("status", describe (enum ("ACTIVE" ∷ "ARCHIVED" ∷ [])))
        ∷ ("parcel_number", optional (union string null))
        ∷ ("title", optional (union string null))
        ∷ ("address", optional (union string null))
        ∷ ("state", optional (union string null))
        ∷ ("lga", optional (union string null))
        ∷ ("ward", optional (union string null))
        ∷ ("community", optional (union string null))
        ∷ ("property_type", optional (union string null))
        ∷ ("size_sqm", optional (union number null))
        ∷ ("ownership_type", optional (union string null))
        ∷ ("current_owner_name", optional (union string null))
        ∷ ("current_owner_contact", optional (union string null))
        ∷ ("created_at", string)
        ∷ ("updated_at", string)
        ∷ ("archived_at", optional (union string null))
        ∷ ("geometry_reference", optional (union string null))
        ∷ [])))

abbrev pub get_parcel_params : Schema
get_parcel_params = object (keys (("parcel_id", coerce_string) ∷ []))

abbrev pub get_parcel_response : Schema
get_parcel_response = describe (
    object (
      keys (
        ("parcel_id", string)
        ∷ ("tenant_id", string)
        ∷ ("country_code", string)
        ∷ ("origin", string)
        ∷ ("created_by", string)
        ∷ ("status", describe (enum ("ACTIVE" ∷ "ARCHIVED" ∷ [])))
        ∷ ("parcel_number", optional (union string null))
        ∷ ("title", optional (union string null))
        ∷ ("address", optional (union string null))
        ∷ ("state", optional (union string null))
        ∷ ("lga", optional (union string null))
        ∷ ("ward", optional (union string null))
        ∷ ("community", optional (union string null))
        ∷ ("property_type", optional (union string null))
        ∷ ("size_sqm", optional (union number null))
        ∷ ("ownership_type", optional (union string null))
        ∷ ("current_owner_name", optional (union string null))
        ∷ ("current_owner_contact", optional (union string null))
        ∷ ("created_at", string)
        ∷ ("updated_at", string)
        ∷ ("archived_at", optional (union string null))
        ∷ ("geometry_reference", optional (union string null))
        ∷ [])))

abbrev pub archive_parcel_params : Schema
archive_parcel_params = object (keys (("parcel_id", coerce_string) ∷ []))

abbrev pub archive_parcel_response : Schema
archive_parcel_response = describe (
    object (
      keys (
        ("parcel_id", string)
        ∷ ("tenant_id", string)
        ∷ ("country_code", string)
        ∷ ("origin", string)
        ∷ ("created_by", string)
        ∷ ("status", describe (enum ("ACTIVE" ∷ "ARCHIVED" ∷ [])))
        ∷ ("parcel_number", optional (union string null))
        ∷ ("title", optional (union string null))
        ∷ ("address", optional (union string null))
        ∷ ("state", optional (union string null))
        ∷ ("lga", optional (union string null))
        ∷ ("ward", optional (union string null))
        ∷ ("community", optional (union string null))
        ∷ ("property_type", optional (union string null))
        ∷ ("size_sqm", optional (union number null))
        ∷ ("ownership_type", optional (union string null))
        ∷ ("current_owner_name", optional (union string null))
        ∷ ("current_owner_contact", optional (union string null))
        ∷ ("created_at", string)
        ∷ ("updated_at", string)
        ∷ ("archived_at", optional (union string null))
        ∷ ("geometry_reference", optional (union string null))
        ∷ [])))
