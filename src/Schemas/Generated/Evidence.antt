-- ===== src/Schemas/Generated/Evidence.antt =====
-- lib/api-zod/src/generated/api.ts: the evidence and who it is attributed to.
use development_plan.Base.{ℕ, [], ◌∷◌}
use development_plan.Schemas.Zod.{
  Schema, string, number, boolean, null, coerce_string, enum, min, max, optional, describe, union,
  array, object, keys,
}

abbrev pub upload_parcel_evidence_params : Schema
upload_parcel_evidence_params = object (keys (("parcel_id", coerce_string) ∷ []))

abbrev pub upload_parcel_evidence_query_filename_max : ℕ
upload_parcel_evidence_query_filename_max = 255

abbrev pub upload_parcel_evidence_query_basis_max : ℕ
upload_parcel_evidence_query_basis_max = 500

abbrev pub upload_parcel_evidence_query_params : Schema
upload_parcel_evidence_query_params = object (
    keys (
      ("filename", max upload_parcel_evidence_query_filename_max (min 1 coerce_string))
      ∷ (
        "evidence_type",
        enum ("SURVEY_PLAN" ∷ "TITLE_DOCUMENT" ∷ "IDENTITY_DOCUMENT" ∷ "OTHER" ∷ []),
      )
      ∷ ("basis", max upload_parcel_evidence_query_basis_max (min 1 coerce_string))
      ∷ []))

abbrev pub upload_parcel_evidence_response : Schema
upload_parcel_evidence_response = describe (
    object (
      keys (
        ("evidence_id", string)
        ∷ ("parcel_id", string)
        ∷ ("uploaded_by", string)
        ∷ ("filename", string)
        ∷ ("mime_type", string)
        ∷ ("size_bytes", number)
        ∷ ("basis", string)
        ∷ (
          "evidence_type",
          describe (enum ("SURVEY_PLAN" ∷ "TITLE_DOCUMENT" ∷ "IDENTITY_DOCUMENT" ∷ "OTHER" ∷ [])),
        )
        ∷ ("status", describe (enum ("RECEIVED" ∷ "HASHED" ∷ "SEALED" ∷ [])))
        ∷ ("sha256", optional (union string null))
        ∷ ("created_at", string)
        ∷ [])))

abbrev pub list_parcel_evidence_params : Schema
list_parcel_evidence_params = object (keys (("parcel_id", coerce_string) ∷ []))

abbrev pub list_parcel_evidence_response_item : Schema
list_parcel_evidence_response_item = describe (
    object (
      keys (
        ("evidence_id", string)
        ∷ ("parcel_id", string)
        ∷ ("uploaded_by", string)
        ∷ ("filename", string)
        ∷ ("mime_type", string)
        ∷ ("size_bytes", number)
        ∷ ("basis", string)
        ∷ (
          "evidence_type",
          describe (enum ("SURVEY_PLAN" ∷ "TITLE_DOCUMENT" ∷ "IDENTITY_DOCUMENT" ∷ "OTHER" ∷ [])),
        )
        ∷ ("status", describe (enum ("RECEIVED" ∷ "HASHED" ∷ "SEALED" ∷ [])))
        ∷ ("sha256", optional (union string null))
        ∷ ("created_at", string)
        ∷ [])))

abbrev pub list_parcel_evidence_response : Schema
list_parcel_evidence_response = array list_parcel_evidence_response_item

abbrev pub record_evidence_attribution_params : Schema
record_evidence_attribution_params = object (keys (("evidence_id", coerce_string) ∷ []))

abbrev pub record_evidence_attribution_body : Schema
record_evidence_attribution_body = describe (
    object (
      keys (
        ("attribution_role", enum ("ORIGINATED_BY" ∷ "REVIEWED_BY" ∷ "COMMISSIONED_BY" ∷ []))
        ∷ (
          "actor_reference_kind",
          enum ("INTERNAL_PRINCIPAL" ∷ "EXTERNAL_NAMED" ∷ "HISTORICAL_ASSERTED" ∷ "UNKNOWN" ∷ []),
        )
        ∷ ("actor_type", enum ("INDIVIDUAL" ∷ "ORGANIZATION" ∷ "UNKNOWN" ∷ []))
        ∷ ("basis", string)
        ∷ ("actor_principal_id", optional (union string null))
        ∷ ("actor_name", optional (union string null))
        ∷ ("actor_organization_name", optional (union string null))
        ∷ ("review_method", optional (union string null))
        ∷ [])))

abbrev pub record_evidence_attribution_response : Schema
record_evidence_attribution_response = describe (
    object (
      keys (
        ("attribution_id", string)
        ∷ ("evidence_id", string)
        ∷ ("attribution_role", enum ("ORIGINATED_BY" ∷ "REVIEWED_BY" ∷ "COMMISSIONED_BY" ∷ []))
        ∷ (
          "actor_reference_kind",
          enum ("INTERNAL_PRINCIPAL" ∷ "EXTERNAL_NAMED" ∷ "HISTORICAL_ASSERTED" ∷ "UNKNOWN" ∷ []),
        )
        ∷ ("actor_principal_id", union string null)
        ∷ ("actor_name", union string null)
        ∷ ("actor_organization_name", union string null)
        ∷ ("actor_type", enum ("INDIVIDUAL" ∷ "ORGANIZATION" ∷ "UNKNOWN" ∷ []))
        ∷ ("basis", string)
        ∷ ("review_method", union string null)
        ∷ ("recorded_by", string)
        ∷ ("recorded_at", string)
        ∷ ("supersedes_id", union string null)
        ∷ ("is_active", boolean)
        ∷ [])))

abbrev pub correct_evidence_attribution_params : Schema
correct_evidence_attribution_params = object (keys (("attribution_id", coerce_string) ∷ []))

abbrev pub correct_evidence_attribution_body : Schema
correct_evidence_attribution_body = describe (
    object (
      keys (
        ("attribution_role", enum ("ORIGINATED_BY" ∷ "REVIEWED_BY" ∷ "COMMISSIONED_BY" ∷ []))
        ∷ (
          "actor_reference_kind",
          enum ("INTERNAL_PRINCIPAL" ∷ "EXTERNAL_NAMED" ∷ "HISTORICAL_ASSERTED" ∷ "UNKNOWN" ∷ []),
        )
        ∷ ("actor_type", enum ("INDIVIDUAL" ∷ "ORGANIZATION" ∷ "UNKNOWN" ∷ []))
        ∷ ("basis", string)
        ∷ ("actor_principal_id", optional (union string null))
        ∷ ("actor_name", optional (union string null))
        ∷ ("actor_organization_name", optional (union string null))
        ∷ ("review_method", optional (union string null))
        ∷ [])))

abbrev pub correct_evidence_attribution_response : Schema
correct_evidence_attribution_response = describe (
    object (
      keys (
        ("attribution_id", string)
        ∷ ("evidence_id", string)
        ∷ ("attribution_role", enum ("ORIGINATED_BY" ∷ "REVIEWED_BY" ∷ "COMMISSIONED_BY" ∷ []))
        ∷ (
          "actor_reference_kind",
          enum ("INTERNAL_PRINCIPAL" ∷ "EXTERNAL_NAMED" ∷ "HISTORICAL_ASSERTED" ∷ "UNKNOWN" ∷ []),
        )
        ∷ ("actor_principal_id", union string null)
        ∷ ("actor_name", union string null)
        ∷ ("actor_organization_name", union string null)
        ∷ ("actor_type", enum ("INDIVIDUAL" ∷ "ORGANIZATION" ∷ "UNKNOWN" ∷ []))
        ∷ ("basis", string)
        ∷ ("review_method", union string null)
        ∷ ("recorded_by", string)
        ∷ ("recorded_at", string)
        ∷ ("supersedes_id", union string null)
        ∷ ("is_active", boolean)
        ∷ [])))
