-- ===== src/Server/Rejections.antt =====
-- The error answers of artifacts/api-server/src/routes.
pub mod Answers
use development_plan.Base.{ℕ, String, ◌≡◌, refl, ap, subst, Option}
use development_plan.Base.Attempt.{Action, done, >>=-query, >>=-statement}
use development_plan.Base.Keeps.{Keeps, Anything, state-Keeps}
use development_plan.Server.Database.{Database, IsLawful}
use development_plan.Server.Contract.{
  Runtime, Contract, Response, error, raw_id, or_bad_request-keeps,
}
use development_plan.Server.ParcelRoutes.{update_parcel, delete_parcel}
use development_plan.Server.EvidenceRoutes.{
  add_evidence, update_evidence, update_document, delete_evidence,
}
use development_plan.Server.ReadOnly.{
  list_parcels-Keeps, get_parcel-Keeps, list_evidence-Keeps, dashboard_stats-Keeps, health-Keeps,
}
use development_plan.Server.App.{
  Request, get_health, get_stats, get_parcels, post_parcel, get_one_parcel, patch_parcel,
  delete_one_parcel, get_evidence, post_evidence, patch_evidence, delete_one_evidence, handle,
}
use development_plan.Server.Rejections.Answers.{
  HasSameRows, create_parcel-rejects, apply_updates-rejects, respond_deleted-rejects,
  add_to_found-rejects, after_update-rejects, after_delete-rejects,
}

module _ {N : Type 0} (rt : Runtime N) (db : Database N) (ct : Contract N) (L : IsLawful db) where
  reads-reject :
      {A : Type 0} (s s' : db.State) {m : Action db.State A} {a : A}
      → Keeps (HasSameRows db s) Anything m
      → m s ≡ (done a, s')
      → HasSameRows db s s'
  reads-reject s s' k e = subst (HasSameRows db s) (ap (λ r. r.1) e) (state-Keeps k s (refl, refl))

  -- On a database that meets the SQL assumptions: a request that is answered with an error, be it
  -- 400 or 404, leaves the rows of both tables as they were.
  pub handle-rejects :
      (request : Request N ct.Json) (s s' : db.State) (code : ℕ) (message : String)
      → handle rt db ct request s ≡ (done (error code message), s')
      → HasSameRows db s s'
  unfolding handle update_parcel delete_parcel add_evidence update_evidence update_document
      delete_evidence
  handle-rejects get_health s s' code message e = reads-reject s s' (health-Keeps rt db ct _) e
  handle-rejects (get_stats is_recent) s s' code message e =
      reads-reject s s' (dashboard_stats-Keeps rt db ct _ is_recent) e
  handle-rejects (get_parcels q) s s' code message e =
      reads-reject s s' (list_parcels-Keeps rt db ct _ q) e
  handle-rejects (post_parcel body year draw) s s' code message e =
      create_parcel-rejects rt db ct L body year draw s s' code message e
  handle-rejects (get_one_parcel id) s s' code message e =
      reads-reject s s' (get_parcel-Keeps rt db ct _ id) e
  handle-rejects (patch_parcel id body) s s' code message e =
      (or_bad_request-keeps (HasSameRows db s) (ct.update_parcel_params (raw_id id)) _ s s' _
          (refl, refl)
          λ _ _.
            or_bad_request-keeps (HasSameRows db s) (ct.update_parcel_body body) _ s s' _
              (refl, refl)
              λ d _.
                apply_updates-rejects rt db ct L (db.read_uuid (raw_id id)) d s s' code message)
        e
  handle-rejects (delete_one_parcel id) s s' code message e =
      (or_bad_request-keeps (HasSameRows db s) (ct.delete_parcel_params (raw_id id)) _ s s' _
          (refl, refl)
          λ _ _ e.
            let (found, s1, deleted, e1) = >>=-statement _ _ s e in
            respond_deleted-rejects rt db ct L (db.read_uuid (raw_id id)) found s s1 s' code message
              deleted e1)
        e
  handle-rejects (get_evidence id) s s' code message e =
      reads-reject s s' (list_evidence-Keeps rt db ct _ id) e
  handle-rejects (post_evidence id body) s s' code message e =
      (or_bad_request-keeps (HasSameRows db s) (ct.add_evidence_params (raw_id id)) _ s s' _
          (refl, refl)
          λ _ _ e.
            let (found, _, e1) = >>=-query _ _ s e in
            add_to_found-rejects rt db ct L (db.read_uuid (raw_id id)) body found s s' code message
              e1)
        e
  handle-rejects (patch_evidence id body) s s' code message e =
      (or_bad_request-keeps (HasSameRows db s) (ct.update_evidence_params (raw_id id)) _ s s' _
          (refl, refl)
          λ _ _.
            or_bad_request-keeps (HasSameRows db s) (ct.update_evidence_body body) _ s s' _
              (refl, refl)
              λ d _ e.
                let (found, s1, written, e1) = >>=-statement _ _ s e in
                after_update-rejects rt db ct L d _ (db.read_uuid (raw_id id)) found s s1 s' code
                  message written e1)
        e
  handle-rejects (delete_one_evidence id) s s' code message e =
      (or_bad_request-keeps (HasSameRows db s) (ct.delete_evidence_params (raw_id id)) _ s s' _
          (refl, refl)
          λ _ _ e.
            let (found, s1, deleted, e1) = >>=-statement _ _ s e in
            after_delete-rejects rt db ct L (db.read_uuid (raw_id id)) found s s1 s' code message
              deleted e1)
        e
