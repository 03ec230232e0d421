-- ===== src/Schemas/Interfaces/Evidence.antt =====
-- lib/api-client-react/src/generated/api.schemas.ts: the types of the evidence and who it is attributed to.
use development_plan.Base.{[], ◌∷◌}
use development_plan.Schemas.Types.{
  Shape, string, number, boolean, null, literals, union, interface, required, optional, properties,
}

abbrev pub actor_reference_kind : Shape
actor_reference_kind =
    literals ("INTERNAL_PRINCIPAL" ∷ "EXTERNAL_NAMED" ∷ "HISTORICAL_ASSERTED" ∷ "UNKNOWN" ∷ [])

abbrev pub actor_type : Shape
actor_type = literals ("INDIVIDUAL" ∷ "ORGANIZATION" ∷ "UNKNOWN" ∷ [])

abbrev pub attribution_role : Shape
attribution_role = literals ("ORIGINATED_BY" ∷ "REVIEWED_BY" ∷ "COMMISSIONED_BY" ∷ [])

abbrev pub attribution_response : Shape
attribution_response = interface (
    properties (
      required "attribution_id" string
      ∷ required "evidence_id" string
      ∷ required "attribution_role" attribution_role
      ∷ required "actor_reference_kind" actor_reference_kind
      ∷ required "actor_principal_id" (union string null)
      ∷ required "actor_name" (union string null)
      ∷ required "actor_organization_name" (union string null)
      ∷ required "actor_type" actor_type
      ∷ required "basis" string
      ∷ required "review_method" (union string null)
      ∷ required "recorded_by" string
      ∷ required "recorded_at" string
      ∷ required "supersedes_id" (union string null)
      ∷ required "is_active" boolean
      ∷ []))

abbrev pub correct_attribution_request : Shape
correct_attribution_request = interface (
    properties (
      required "attribution_role" attribution_role
      ∷ required "actor_reference_kind" actor_reference_kind
      ∷ required "actor_type" actor_type
      ∷ required "basis" string
      ∷ optional "actor_principal_id" (union string null)
      ∷ optional "actor_name" (union string null)
      ∷ optional "actor_organization_name" (union string null)
      ∷ optional "review_method" (union string null)
      ∷ []))

abbrev pub evidence_type : Shape
evidence_type = literals ("SURVEY_PLAN" ∷ "TITLE_DOCUMENT" ∷ "IDENTITY_DOCUMENT" ∷ "OTHER" ∷ [])

abbrev pub evidence_status : Shape
evidence_status = literals ("RECEIVED" ∷ "HASHED" ∷ "SEALED" ∷ [])

abbrev pub evidence_response : Shape
evidence_response = interface (
    properties (
      required "evidence_id" string
      ∷ required "parcel_id" string
      ∷ required "uploaded_by" string
      ∷ required "filename" string
      ∷ required "mime_type" string
      ∷ required "size_bytes" number
      ∷ required "basis" string
      ∷ required "evidence_type" evidence_type
      ∷ required "status" evidence_status
      ∷ optional "sha256" (union string null)
      ∷ required "created_at" string
      ∷ []))

abbrev pub record_attribution_request : Shape
record_attribution_request = interface (
    properties (
      required "attribution_role" attribution_role
      ∷ required "actor_reference_kind" actor_reference_kind
      ∷ required "actor_type" actor_type
      ∷ required "basis" string
      ∷ optional "actor_principal_id" (union string null)
      ∷ optional "actor_name" (union string null)
      ∷ optional "actor_organization_name" (union string null)
      ∷ optional "review_method" (union string null)
      ∷ []))

abbrev pub upload_parcel_evidence_params : Shape
upload_parcel_evidence_params = interface (
    properties (
      required "filename" string
      ∷ required "evidence_type" evidence_type
      ∷ required "basis" string
      ∷ []))
