-- ===== src/Tests/History.antt =====
-- A registry that lives through a few requests.
use development_plan.Base.{ℕ, String, ◌≡◌, refl, none, some, [], ◌∷◌, string_eq}
use development_plan.Base.Attempt.{Attempt, done, ◌>>=◌, ◌>>◌, query, statement, attempt}
use development_plan.Server.Schema.{Parcel, Evidence}
use development_plan.Server.Contract.{
  Response, json, one, or_bad_request, CreateParcelBody, UpdateParcelBody, AddEvidenceBody,
  UpdateEvidenceBody,
}
use development_plan.Server.Database.Memory.{Tables, empty_tables, memory}
use development_plan.Server.Trust.{compute_trust_score, recalculated_score}
use development_plan.Server.ParcelRoutes.{
  generate_title_number, has_no_keys, provided_changes, create_parcel, update_parcel, apply_updates,
  rescore, respond_updated, to_parcel_shape,
}
use development_plan.Server.EvidenceRoutes.{
  to_evidence_shape, add_evidence, add_to_found, insert_document, update_evidence, update_document,
  after_update, recalc_trust_score, rescore_found, write_score,
}
use development_plan.Server.App.{
  Request, post_parcel, post_evidence, patch_evidence, patch_parcel, handle,
}
use development_plan.Tests.Samples.{
  runtime, contract, creates, files, reviews, updates, Posted, Sent, parcel, document,
}

abbrev pub application : CreateParcelBody ℕ
application = record {
  owner_name = "Ada";
  owner_phone = none;
  owner_email = none;
  location_address = "1 Marina";
  state = "Lagos";
  lga = "Eti-Osa";
  area_sqm = 1200;
  parcel_type = "residential";
  latitude = none;
  longitude = none;
}

abbrev pub deed : AddEvidenceBody
deed = record { document_type = "deed"; file_name = "deed.pdf"; notes = none }

abbrev pub review : UpdateEvidenceBody
review = record { status = some "verified"; notes = none }

abbrev pub registration : UpdateParcelBody ℕ
registration = record {
  owner_name = none;
  owner_phone = none;
  owner_email = none;
  location_address = none;
  state = none;
  lga = none;
  area_sqm = none;
  parcel_type = none;
  status = some "registered";
  latitude = none;
  longitude = none;
}

-- The server over the tables in memory.
unfoldable pub serve : Request ℕ Posted → Tables → Attempt (Response Sent) × Tables
unfolding handle or_bad_request ◌>>=◌ ◌>>◌ query statement attempt string_eq generate_title_number
    has_no_keys provided_changes create_parcel update_parcel apply_updates rescore respond_updated
    to_parcel_shape to_evidence_shape add_evidence add_to_found insert_document update_evidence
    update_document after_update recalc_trust_score rescore_found write_score compute_trust_score
    recalculated_score
serve = handle runtime memory contract

-- The row of the parcel, with a status, a score and the time of the last change.
abbrev pub row : String → ℕ → ℕ → Parcel ℕ
row status score time = record {
  id = "id";
  title_number = "LV-NG-2026-2026";
  owner_name = "Ada";
  owner_phone = none;
  owner_email = none;
  location_address = "1 Marina";
  state = "Lagos";
  lga = "Eti-Osa";
  area_sqm = "1200.00";
  parcel_type = "residential";
  status = status;
  trust_score = score;
  latitude = none;
  longitude = none;
  created_at = 0;
  updated_at = time;
}

abbrev pub document_row : String → Evidence
document_row status = record {
  id = "id'";
  parcel_id = "id";
  document_type = "deed";
  file_name = "deed.pdf";
  notes = none;
  status = status;
  uploaded_at = 1;
}

abbrev pub with_parcel : Tables
with_parcel = record { parcels = row "pending" 10 0 ∷ []; evidence = []; ticks = 1 }

abbrev pub with_deed : Tables
with_deed = record {
  parcels = row "pending" 10 0 ∷ [];
  evidence = document_row "pending_review" ∷ [];
  ticks = 2;
}

abbrev pub with_review : Tables
with_review = record {
  parcels = row "pending" 22 2 ∷ [];
  evidence = document_row "verified" ∷ [];
  ticks = 3;
}

abbrev pub registered : Tables
registered = record {
  parcels = row "registered" 62 3 ∷ [];
  evidence = document_row "verified" ∷ [];
  ticks = 4;
}

pub posted_parcel :
    serve (post_parcel (creates application) 2026 7) empty_tables
    ≡ (done (json 201 (parcel (to_parcel_shape runtime (row "pending" 10 0)))), with_parcel)
unfolding serve
posted_parcel = refl

pub posted_evidence : serve (post_evidence (one "id") (files deed)) with_parcel ≡ (
  done (json 201 (document (to_evidence_shape runtime (document_row "pending_review")))),
  with_deed,
)
unfolding serve
posted_evidence = refl

pub reviewed_evidence : serve (patch_evidence (one "id'") (reviews review)) with_deed ≡ (
  done (json 200 (document (to_evidence_shape runtime (document_row "verified")))),
  with_review,
)
unfolding serve
reviewed_evidence = refl

pub registered_parcel :
    serve (patch_parcel (one "id") (updates registration)) with_review
    ≡ (done (json 200 (parcel (to_parcel_shape runtime (row "registered" 62 3)))), registered)
unfolding serve
registered_parcel = refl
