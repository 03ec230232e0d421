-- ===== src/Client/Api/Operations/Evidence.antt =====
-- lib/api-client-react/src/generated/api.ts: the calls of the functions in Evidence.
use development_plan.Base.{String, Option, List, [], ◌∷◌}
use development_plan.Client.{Body}
use development_plan.Client.Api.{Runtime, RequestOptions, Sent}
use development_plan.Client.Api.Evidence.{UploadParcelEvidenceParams}
use development_plan.Client.Api.Evidence

-- A call by its function and arguments, ids first.
pub data EvidenceCall (Value : Type 0) : Type 0 where
  upload_parcel_evidence : String → Body → UploadParcelEvidenceParams → EvidenceCall Value
  list_parcel_evidence : String → EvidenceCall Value
  record_evidence_attribution : String → Value → EvidenceCall Value
  correct_evidence_attribution : String → Value → EvidenceCall Value

unfoldable pub sent :
    {Value : Type 0} → Runtime Value → EvidenceCall Value → Option RequestOptions → Sent
sent runtime (upload_parcel_evidence parcel_id body params) options =
    Evidence.upload_parcel_evidence runtime parcel_id body params options
sent runtime (list_parcel_evidence parcel_id) options =
    Evidence.list_parcel_evidence parcel_id options
sent runtime (record_evidence_attribution evidence_id body) options =
    Evidence.record_evidence_attribution runtime evidence_id body options
sent runtime (correct_evidence_attribution attribution_id body) options =
    Evidence.correct_evidence_attribution runtime attribution_id body options

-- The name of the operation in the OpenAPI document.
unfoldable pub operation_id : {Value : Type 0} → EvidenceCall Value → String
operation_id (upload_parcel_evidence _ _ _) = "uploadParcelEvidence"
operation_id (list_parcel_evidence _) = "listParcelEvidence"
operation_id (record_evidence_attribution _ _) = "recordEvidenceAttribution"
operation_id (correct_evidence_attribution _ _) = "correctEvidenceAttribution"

unfoldable pub ids : {Value : Type 0} → EvidenceCall Value → List String
ids (upload_parcel_evidence parcel_id _ _) = parcel_id ∷ []
ids (list_parcel_evidence parcel_id) = parcel_id ∷ []
ids (record_evidence_attribution evidence_id _) = evidence_id ∷ []
ids (correct_evidence_attribution attribution_id _) = attribution_id ∷ []
