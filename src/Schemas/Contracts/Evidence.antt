-- ===== src/Schemas/Contracts/Evidence.antt =====
-- The schemas of the evidence and who it is attributed to, with the types that the client gives to the same values.
use development_plan.Base.{refl, List, [], ◌∷◌, All, string_eq}
use development_plan.Schemas.Types.{Shape}
use development_plan.Schemas.Generated.Evidence as Generated
use development_plan.Schemas.Interfaces.Evidence
use development_plan.Schemas.Infer.{
  is_optional, infer, infer_entries, lacks_key, is_regular, are_regular, is_unlimited,
  are_unlimited,
}
use development_plan.Schemas.Agreement.{Contract, Agrees, IsUnlimited}

abbrev pub evidence_contracts : List Contract
evidence_contracts =
    record {
      operation = "uploadParcelEvidence";
      schema = Generated.upload_parcel_evidence_response;
      shape = Evidence.evidence_response;
    }
    ∷ record {
      operation = "listParcelEvidence";
      schema = Generated.list_parcel_evidence_response;
      shape = Shape.array Evidence.evidence_response;
    }
    ∷ record {
      operation = "recordEvidenceAttribution";
      schema = Generated.record_evidence_attribution_body;
      shape = Evidence.record_attribution_request;
    }
    ∷ record {
      operation = "recordEvidenceAttribution";
      schema = Generated.record_evidence_attribution_response;
      shape = Evidence.attribution_response;
    }
    ∷ record {
      operation = "correctEvidenceAttribution";
      schema = Generated.correct_evidence_attribution_body;
      shape = Evidence.correct_attribution_request;
    }
    ∷ record {
      operation = "correctEvidenceAttribution";
      schema = Generated.correct_evidence_attribution_response;
      shape = Evidence.attribution_response;
    }
    ∷ []

pub evidence_contracts-Agree : All Agrees evidence_contracts
unfolding infer infer_entries is_optional is_regular are_regular lacks_key string_eq
evidence_contracts-Agree = (
  (refl, refl, refl),
  (
    (refl, refl, refl),
    ((refl, refl, refl), ((refl, refl, refl), ((refl, refl, refl), ((refl, refl, refl), tt)))),
  ),
)

pub evidence_contracts-AreUnlimited : All IsUnlimited evidence_contracts
unfolding is_unlimited are_unlimited
evidence_contracts-AreUnlimited = (refl, (refl, (refl, (refl, (refl, (refl, tt))))))

-- The parameters of an upload, whose texts are limited.
abbrev pub query_contracts : List Contract
query_contracts =
    record {
      operation = "uploadParcelEvidence";
      schema = Generated.upload_parcel_evidence_query_params;
      shape = Evidence.upload_parcel_evidence_params;
    }
    ∷ []

pub query_contracts-Agree : All Agrees query_contracts
unfolding infer infer_entries is_optional is_regular are_regular lacks_key string_eq
query_contracts-Agree = ((refl, refl, refl), tt)
