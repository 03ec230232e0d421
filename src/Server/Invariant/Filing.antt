-- ===== src/Server/Invariant/Filing.antt =====
-- The routes of artifacts/api-server/src/routes/evidence.ts and the consistency of the tables.
use development_plan.Base.{
  String, ◌≡◌, refl, sym, ap, ◌∙◌, ◌≢◌, false, none, some, Option, find, subst, subst₂, Bool-cases,
  inl, inr, arith, string_eq, if◌then◌else◌,
}
use development_plan.Base.Attempt.{done, return, >>=-query, >>=-statement, >>=-attempt, >>-done}
use development_plan.Server.Schema.{Evidence, Optional, Parcel}
use development_plan.Server.Database.{Database, IsLawful, has_id, is_evidence}
use development_plan.Server.Contract.{
  Runtime, Contract, Response, RouteParam, raw_id, or_bad_request-keeps, UpdateEvidenceBody,
  success,
}
use development_plan.Server.ParcelRoutes.{is_truthy}
use development_plan.Server.EvidenceRoutes.{
  recalc_trust_score, add_evidence, add_to_found, insert_document, after_update, update_document,
  update_evidence, after_delete, delete_evidence, provided_evidence_changes,
}
use development_plan.Server.Invariant.{AreScoredBut, IsIntact, IsConsistent, Holds}
use development_plan.Server.Invariant.Documents.{
  insert_evidence-IsConsistent, update_evidence-IsIntact, update_evidence-AreScoredBut,
  update_evidence-IsConsistent, update_evidence-IsConsistent_absent, delete_evidence-IsIntact,
  delete_evidence-AreScoredBut, delete_evidence-IsConsistent_absent,
}
use development_plan.Server.Invariant.Recalc.{recalc_trust_score-Holds}

-- A status that is neither given nor empty is not given.
unset : (status : Optional String) → status ≢ some "" → is_truthy status ≡ false → status ≡ none
unset none valid absent = refl
unset (some t) valid absent = absurd (valid (ground arith))

module _ {N : Type 0} (rt : Runtime N) (db : Database N) (ct : Contract N) (L : IsLawful db) where
  insert_document-Holds :
      (id : String) (request : ct.Json) (s s' : db.State) (r : Response ct.Reply)
      → find (has_id id) (db.parcels s) ≢ none
      → Holds db s
      → insert_document rt db ct id request s ≡ (done r, s')
      → Holds db s'
  unfolding insert_document
  insert_document-Holds id request s s' r present k =
      or_bad_request-keeps (Holds db) (ct.add_evidence_body request) _ s s' r k λ d _ e.
        let (v, s1, inserted, e1) = >>=-statement _ _ s e in
        let (_, _, e2) = >>=-attempt _ _ s1 e1 in
        let (uploaded, made, fresh, rows, same) = L.insert_evidence_lem _ s v s1 inserted in
        let after =
          insert_evidence-IsConsistent (db.parcels s) (db.evidence s) _ v uploaded made refl fresh
            present k in
        subst (Holds db) (ap (λ x. x.1) e2) (subst₂ IsConsistent (sym same) (sym rows) after)

  add_to_found-Holds :
      (id : String) (request : ct.Json) (found : Option (Parcel N)) (s s' : db.State)
      (r : Response ct.Reply)
      → found ≡ find (has_id id) (db.parcels s)
      → Holds db s
      → add_to_found rt db ct id request found s ≡ (done r, s')
      → Holds db s'
  unfolding add_to_found
  add_to_found-Holds id request none s s' r found k e = subst (Holds db) (ap (λ x. x.1) e) k
  add_to_found-Holds id request (some p) s s' r found k e =
      insert_document-Holds id request s s' r (λ gone. cc) k e

  pub add_evidence-Holds :
      (param : RouteParam) (request : ct.Json) (s s' : db.State) (r : Response ct.Reply)
      → Holds db s
      → add_evidence rt db ct param request s ≡ (done r, s')
      → Holds db s'
  unfolding add_evidence
  add_evidence-Holds param request s s' r k =
      or_bad_request-keeps (Holds db) (ct.add_evidence_params (raw_id param)) _ s s' r k λ _ _ e.
        let (found, asked, e1) = >>=-query _ _ s e in
        add_to_found-Holds (db.read_uuid (raw_id param)) request found s s' r
          (L.find_parcel_lem (db.read_uuid (raw_id param)) s found asked) k e1

  after_delete-Holds :
      (id : String) (found : Option Evidence) (s s1 s' : db.State) (r : Response ct.Reply)
      → Holds db s
      → db.delete_evidence id s ≡ done (found, s1)
      → after_delete rt db ct found s1 ≡ (done r, s')
      → Holds db s'
  unfolding after_delete
  after_delete-Holds id none s s1 s' r k deleted e =
      let (gone, rows, same) = L.delete_evidence_lem id s none s1 deleted in
      subst (Holds db) (ap (λ x. x.1) e) (
        subst₂ IsConsistent (sym same) (sym rows)
          (delete_evidence-IsConsistent_absent (db.parcels s) (db.evidence s) id (sym gone) k))
  after_delete-Holds id (some u) s s1 s' r k deleted e =
      let (found, rows, same) = L.delete_evidence_lem id s (some u) s1 deleted in
      let (s2, recalculated, e1) = >>-done _ _ s1 e in
      subst (Holds db) (ap (λ x. x.1) e1) (
        recalc_trust_score-Holds rt db ct L u.parcel_id s1 s2
          (subst₂ IsIntact (sym same) (sym rows)
            (delete_evidence-IsIntact (db.parcels s) (db.evidence s) id k.intact))
          (subst₂ (AreScoredBut u.parcel_id) (sym same) (sym rows)
            (delete_evidence-AreScoredBut (db.parcels s) (db.evidence s) id u (sym found) k))
          recalculated)

  pub delete_evidence-Holds :
      (param : RouteParam) (s s' : db.State) (r : Response ct.Reply)
      → Holds db s
      → delete_evidence rt db ct param s ≡ (done r, s')
      → Holds db s'
  unfolding delete_evidence
  delete_evidence-Holds param s s' r k =
      or_bad_request-keeps (Holds db) (ct.delete_evidence_params (raw_id param)) _ s s' r k λ _ _ e.
        let (found, s1, deleted, e1) = >>=-statement _ _ s e in
        after_delete-Holds (db.read_uuid (raw_id param)) found s s1 s' r k deleted e1

  -- A status that is not given leaves the scores right; one that is given, makes them right.
  rescored-Holds :
      (id : String) (d : UpdateEvidenceBody) (u : Evidence) (s s1 s2 : db.State) {v : Unit {0}}
      → d.status ≢ some ""
      → Holds db s
      → db.update_evidence (provided_evidence_changes d) id s ≡ done (some u, s1)
      → (if is_truthy d.status then recalc_trust_score rt db ct u.parcel_id else return tt) s1
        ≡ (done v, s2)
      → Holds db s2
  rescored-Holds id d u s s1 s2 valid k written e =
      let c = provided_evidence_changes d in
      let (rows, found, same) = L.update_evidence_lem c id s (some u) s1 written in
      elim (Bool-cases (is_truthy d.status)) [
        | inl given ↦
            recalc_trust_score-Holds rt db ct L u.parcel_id s1 s2
              (subst₂ IsIntact (sym same) (sym rows)
                (update_evidence-IsIntact (db.parcels s) (db.evidence s) c id k.intact))
              (subst₂ (AreScoredBut u.parcel_id) (sym same) (sym rows) (
                update_evidence-AreScoredBut (db.parcels s) (db.evidence s) id u c
                  (sym (found ∙ ap (find (is_evidence id)) rows)) k))
              (rw given at e)
        | inr absent ↦ subst (Holds db) (ap (λ x. x.1) (rw absent at e)) (
            subst₂ IsConsistent (sym same) (sym rows) (
              update_evidence-IsConsistent (db.parcels s) (db.evidence s) c id
                (unset d.status valid absent) k))
      ]

  after_update-Holds :
      (id : String) (d : UpdateEvidenceBody) (found : Option Evidence) (s s1 s' : db.State)
      (r : Response ct.Reply)
      → d.status ≢ some ""
      → Holds db s
      → db.update_evidence (provided_evidence_changes d) id s ≡ done (found, s1)
      → after_update rt db ct d found s1 ≡ (done r, s')
      → Holds db s'
  unfolding after_update
  after_update-Holds id d none s s1 s' r valid k written e =
      let c = provided_evidence_changes d in
      let (rows, found, same) = L.update_evidence_lem c id s none s1 written in
      subst (Holds db) (ap (λ x. x.1) e) (
        subst₂ IsConsistent (sym same) (sym rows) (
          update_evidence-IsConsistent_absent (db.parcels s) (db.evidence s) c id
            (sym (found ∙ ap (find (is_evidence id)) rows)) k))
  after_update-Holds id d (some u) s s1 s' r valid k written e =
      let (s2, rescored, e1) = >>-done _ _ s1 e in
      let (_, _, e2) = >>=-attempt _ _ s2 e1 in
      subst (Holds db) (ap (λ x. x.1) e2) (rescored-Holds id d u s s1 s2 valid k written rescored)

  pub update_evidence-Holds :
      (param : RouteParam) (request : ct.Json) (s s' : db.State) (r : Response ct.Reply)
      → ((d : UpdateEvidenceBody)
          → ct.update_evidence_body request ≡ success d
          → d.status ≢ some "")
      → Holds db s
      → update_evidence rt db ct param request s ≡ (done r, s')
      → Holds db s'
  unfolding update_evidence update_document
  update_evidence-Holds param request s s' r valid k =
      or_bad_request-keeps (Holds db) (ct.update_evidence_params (raw_id param)) _ s s' r k λ _ _.
        or_bad_request-keeps (Holds db) (ct.update_evidence_body request) _ s s' r k λ d parsed e.
          let (found, s1, written, e1) = >>=-statement _ _ s e in
          after_update-Holds (db.read_uuid (raw_id param)) d found s s1 s' r (valid d parsed) k
            written e1
