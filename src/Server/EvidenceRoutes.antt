-- ===== src/Server/EvidenceRoutes.antt =====
-- artifacts/api-server/src/routes/evidence.ts
use development_plan.Base.{Option, ℕ, String, none, some, map, if◌then◌else◌}
use development_plan.Base.Attempt.{Action, ◌>>=◌, ◌>>◌, return, attempt, query, statement}
use development_plan.Server.Schema.{Parcel, ParcelChanges, Evidence, EvidenceChanges}
use development_plan.Server.Database.{Database, belongs_to}
use development_plan.Server.Trust.{recalculated_score}
use development_plan.Server.ParcelRoutes.{or_null, is_truthy, is_verified_of, not_found}
use development_plan.Server.Contract.{
  or_bad_request, Response, json, error, send_status, RouteParam, raw_id, Runtime, EvidenceShape,
  UpdateEvidenceBody, Contract,
}

-- `toEvidenceShape`
unfoldable pub to_evidence_shape : {N : Type 0} → Runtime N → Evidence → EvidenceShape
to_evidence_shape rt e = record {
  id = e.id;
  parcel_id = e.parcel_id;
  document_type = e.document_type;
  file_name = e.file_name;
  notes = e.notes;
  status = e.status;
  uploaded_at = rt.to_iso_string e.uploaded_at;
}

-- `.set({ trustScore })`
abbrev pub only_score : {N : Type 0} → ℕ → ParcelChanges N
only_score score = record {
  owner_name = none;
  owner_phone = none;
  owner_email = none;
  location_address = none;
  state = none;
  lga = none;
  area_sqm = none;
  parcel_type = none;
  status = none;
  trust_score = some score;
  latitude = none;
  longitude = none;
}

abbrev pub evidence_not_found : {R : Type 0} → Response R
evidence_not_found = error 404 "Evidence not found"

abbrev pub provided_evidence_changes : UpdateEvidenceBody → EvidenceChanges
provided_evidence_changes d = record { status = d.status; notes = d.notes }

module _ {N : Type 0} (rt : Runtime N) (db : Database N) (ct : Contract N) where
  abbrev Handler : Type 0
  Handler = Action db.State (Response ct.Reply)

  -- The rest of `recalcTrustScore`, once the parcel is found.
  unfoldable pub write_score : String → Parcel N → Action db.State (Unit {0})
  write_score id parcel = do
    evidence_count ← query (db.count_evidence (is_verified_of id))
    _ ←
        statement
          (db.update_parcel (only_score (recalculated_score parcel.status evidence_count)) id)
    return tt

  unfoldable pub rescore_found : String → Option (Parcel N) → Action db.State (Unit {0})
  rescore_found id none = return tt
  rescore_found id (some parcel) = write_score id parcel

  unfoldable pub recalc_trust_score : String → Action db.State (Unit {0})
  recalc_trust_score id = do found ← query (db.find_parcel id); rescore_found id found

  -- GET /parcels/:id/evidence
  unfoldable pub list_evidence : RouteParam → Handler
  list_evidence param = or_bad_request (ct.list_evidence_params (raw_id param)) λ _. do
    items ← query (db.select_evidence (belongs_to (db.read_uuid (raw_id param))))
    body ← attempt (ct.list_evidence_response (map (to_evidence_shape rt) items))
    return (json 200 body)

  -- The rest of `POST /parcels/:id/evidence`, once the parcel is known to exist.
  unfoldable pub insert_document : String → ct.Json → Handler
  insert_document id request = or_bad_request (ct.add_evidence_body request) λ d. do
    ev ← statement (
        db.insert_evidence (record {
          parcel_id = id;
          document_type = d.document_type;
          file_name = d.file_name;
          notes = or_null d.notes;
          status = "pending_review";
        }))
    body ← attempt (ct.add_evidence_response (to_evidence_shape rt ev))
    return (json 201 body)

  -- Only to a parcel that exists.
  unfoldable pub add_to_found : String → ct.Json → Option (Parcel N) → Handler
  add_to_found id request none = return not_found
  add_to_found id request (some _) = insert_document id request

  -- POST /parcels/:id/evidence
  unfoldable pub add_evidence : RouteParam → ct.Json → Handler
  add_evidence param request = or_bad_request (ct.add_evidence_params (raw_id param)) λ _. do
    found ← query (db.find_parcel (db.read_uuid (raw_id param)))
    add_to_found (db.read_uuid (raw_id param)) request found

  -- The rest of `PATCH /evidence/:evidenceId`, with the updated row or without.
  unfoldable pub after_update : UpdateEvidenceBody → Option Evidence → Handler
  after_update d none = return evidence_not_found
  after_update d (some updated) = do
    if is_truthy d.status then recalc_trust_score updated.parcel_id else return tt
    body ← attempt (ct.update_evidence_response (to_evidence_shape rt updated))
    return (json 200 body)

  unfoldable pub update_document : String → UpdateEvidenceBody → Handler
  update_document id d = do
    found ← statement (db.update_evidence (provided_evidence_changes d) id)
    after_update d found

  -- PATCH /evidence/:evidenceId
  unfoldable pub update_evidence : RouteParam → ct.Json → Handler
  update_evidence param request = or_bad_request (ct.update_evidence_params (raw_id param)) λ _.
      or_bad_request (ct.update_evidence_body request)
        λ d. update_document (db.read_uuid (raw_id param)) d

  -- The rest of `DELETE /evidence/:evidenceId`, with the deleted row or without.
  unfoldable pub after_delete : Option Evidence → Handler
  after_delete none = return evidence_not_found
  after_delete (some deleted) = do recalc_trust_score deleted.parcel_id; return (send_status 204)

  -- DELETE /evidence/:evidenceId
  unfoldable pub delete_evidence : RouteParam → Handler
  delete_evidence param = or_bad_request (ct.delete_evidence_params (raw_id param)) λ _. do
    found ← statement (db.delete_evidence (db.read_uuid (raw_id param)))
    after_delete found
