-- ===== src/Server/Rejections/Answers.antt =====
-- The parts of artifacts/api-server/src/routes that may answer with an error.
use development_plan.Base.{
  ℕ, String, ◌≡◌, refl, sym, ap, ◌∙◌, Bool, not, none, some, Option, List, [], ◌∷◌, map, keep, find,
  subst, Bool-cases, inl, inr, arith, string_eq, ◌==◌,
}
use development_plan.Base.Attempt.{done, >>=-query, >>=-statement, >>=-attempt, >>=-done, >>-done}
use development_plan.Server.Schema.{
  Parcel, ParcelChanges, Evidence, EvidenceChanges, Optional, stored_changes,
}
use development_plan.Server.Database.{
  Database, IsLawful, has_id, is_evidence, changed_parcel, changed_evidence,
}
use development_plan.Server.Contract.{
  Runtime, Contract, error, or_bad_request-keeps, UpdateParcelBody, UpdateEvidenceBody,
}
use development_plan.Server.ParcelRoutes.{
  create_parcel, respond_updated, rescore, apply_updates, respond_deleted, provided_changes,
  has_no_keys,
}
use development_plan.Server.EvidenceRoutes.{
  add_to_found, insert_document, after_update, after_delete,
}
use development_plan.Server.Invariant.Registry.{respond_updated-same}

unchanged_parcels :
    {N : Type 0} (c : ParcelChanges N) (id : String) (time : ℕ) (ps : List (Parcel N))
    → find (has_id id) (map (changed_parcel c id time) ps) ≡ none
    → map (changed_parcel c id time) ps ≡ ps
unchanged_parcels c id time [] e = refl
unchanged_parcels c id time (p ∷ ps) e = ground (arith, unchanged_parcels c id time ps)

unchanged_evidence :
    (c : EvidenceChanges) (id : String) (es : List Evidence)
    → find (is_evidence id) (map (changed_evidence c id) es) ≡ none
    → map (changed_evidence c id) es ≡ es
unchanged_evidence c id [] e = refl
unchanged_evidence c id (p ∷ ps) e = ground (arith, unchanged_evidence c id ps)

unremoved :
    {A : Type 0} (test : A → Bool) (xs : List A)
    → find test xs ≡ none
    → keep (λ x. not (test x)) xs ≡ xs
unremoved test [] e = refl
unremoved test (x ∷ xs) e = ground (arith, unremoved test xs)

module _ {N : Type 0} (db : Database N) where
  -- Both tables have the rows that they had.
  abbrev pub HasSameRows : db.State → db.State → Type 0
  HasSameRows s s' = (db.parcels s' ≡ db.parcels s) × (db.evidence s' ≡ db.evidence s)

module _ {N : Type 0} (rt : Runtime N) (db : Database N) (ct : Contract N) (L : IsLawful db) where
  respond_updated-rejects :
      (c : ParcelChanges N) (id : String) (found : Option (Parcel N)) (s s1 s' : db.State)
      (code : ℕ) (message : String)
      → db.update_parcel c id s ≡ done (found, s1)
      → respond_updated rt db ct found s1 ≡ (done (error code message), s')
      → HasSameRows db s s'
  unfolding respond_updated
  respond_updated-rejects c id none s s1 s' code message w e =
      let (time, rows, missing, same) = L.update_parcel_lem c id s none s1 w in
      subst (HasSameRows db s) (ap (λ x. x.1) e) (
        rows
            ∙ unchanged_parcels (stored_changes db.read_numeric c) id time (db.parcels s)
                (sym (missing ∙ ap (find (has_id id)) rows)),
        same,
      )
  respond_updated-rejects c id (some p) s s1 s' code message w e =
      let (_, _, rest) = >>=-attempt _ _ s1 e in absurd (cc)

  rescore-same :
      (id : String) (status : Optional String) (c c' : ParcelChanges N) (s s' : db.State)
      → rescore rt db ct id status c s ≡ (done c', s')
      → s ≡ s'
  unfolding rescore
  rescore-same id none c c' s s' e = ap (λ r. r.1) e
  rescore-same id (some status) c c' s s' e = elim (Bool-cases (status == "")) [
    | inl empty ↦ ap (λ r. r.1) (rw empty at e)
    | inr given ↦ let (_, _, e1) = >>=-query _ _ s (rw given at e) in ap (λ r. r.1) e1
  ]

  pub apply_updates-rejects :
      (id : String) (d : UpdateParcelBody N) (s s' : db.State) (code : ℕ) (message : String)
      → apply_updates rt db ct id d s ≡ (done (error code message), s')
      → HasSameRows db s s'
  unfolding apply_updates
  apply_updates-rejects id d s s' code message e =
      elim (Bool-cases (has_no_keys (provided_changes rt d))) [
        | inl empty ↦
            let (found, _, e1) = >>=-query _ _ s (rw empty at e) in
            subst (HasSameRows db s) (respond_updated-same rt db ct L found s s' _ e1) (refl, refl)
        | inr given ↦
            let (c, s1, scored, e1) = >>=-done _ _ s (rw given at e) in
            let (found, s2, written, e2) = >>=-statement _ _ s1 e1 in
            let stays = rescore-same id d.status _ c s s1 scored in
            respond_updated-rejects c id found s s2 s' code message
              (subst (λ t. db.update_parcel c id t ≡ done (found, s2)) (sym stays) written) e2
      ]

  pub respond_deleted-rejects :
      (id : String) (found : Option (Parcel N)) (s s1 s' : db.State) (code : ℕ) (message : String)
      → db.delete_parcel id s ≡ done (found, s1)
      → respond_deleted rt db ct found s1 ≡ (done (error code message), s')
      → HasSameRows db s s'
  unfolding respond_deleted
  respond_deleted-rejects id none s s1 s' code message w e =
      let (missing, rows, same) = L.delete_parcel_lem id s none s1 w in
      subst (HasSameRows db s) (ap (λ x. x.1) e)
        (rows ∙ unremoved (has_id id) (db.parcels s) (sym missing), same)
  respond_deleted-rejects id (some p) s s1 s' code message w e = absurd (cc)

  pub create_parcel-rejects :
      (request : ct.Json) (year draw : ℕ) (s s' : db.State) (code : ℕ) (message : String)
      → create_parcel rt db ct request year draw s ≡ (done (error code message), s')
      → HasSameRows db s s'
  unfolding create_parcel
  create_parcel-rejects request year draw s s' code message =
      or_bad_request-keeps (HasSameRows db s) (ct.create_parcel_body request) _ s s' _ (refl, refl)
        λ d _ e.
          let (p, s1, _, e1) = >>=-statement _ _ s e in
          let (_, _, e2) = >>=-attempt _ _ s1 e1 in absurd (cc)

  insert_document-rejects :
      (id : String) (request : ct.Json) (s s' : db.State) (code : ℕ) (message : String)
      → insert_document rt db ct id request s ≡ (done (error code message), s')
      → HasSameRows db s s'
  unfolding insert_document
  insert_document-rejects id request s s' code message =
      or_bad_request-keeps (HasSameRows db s) (ct.add_evidence_body request) _ s s' _ (refl, refl)
        λ d _ e.
          let (p, s1, _, e1) = >>=-statement _ _ s e in
          let (_, _, e2) = >>=-attempt _ _ s1 e1 in absurd (cc)

  pub add_to_found-rejects :
      (id : String) (request : ct.Json) (found : Option (Parcel N)) (s s' : db.State) (code : ℕ)
      (message : String)
      → add_to_found rt db ct id request found s ≡ (done (error code message), s')
      → HasSameRows db s s'
  unfolding add_to_found
  add_to_found-rejects id request none s s' code message e =
      subst (HasSameRows db s) (ap (λ x. x.1) e) (refl, refl)
  add_to_found-rejects id request (some p) s s' code message e =
      insert_document-rejects id request s s' code message e

  pub after_update-rejects :
      (d : UpdateEvidenceBody) (c : EvidenceChanges) (id : String) (found : Option Evidence)
      (s s1 s' : db.State) (code : ℕ) (message : String)
      → db.update_evidence c id s ≡ done (found, s1)
      → after_update rt db ct d found s1 ≡ (done (error code message), s')
      → HasSameRows db s s'
  unfolding after_update
  after_update-rejects d c id none s s1 s' code message w e =
      let (rows, missing, same) = L.update_evidence_lem c id s none s1 w in
      subst (HasSameRows db s) (ap (λ x. x.1) e) (
        same,
        rows
            ∙ unchanged_evidence c id (db.evidence s)
                (sym (missing ∙ ap (find (is_evidence id)) rows)),
      )
  after_update-rejects d c id (some ev) s s1 s' code message w e =
      let (s2, _, e1) = >>-done _ _ s1 e in let (_, _, e2) = >>=-attempt _ _ s2 e1 in absurd (cc)

  pub after_delete-rejects :
      (id : String) (found : Option Evidence) (s s1 s' : db.State) (code : ℕ) (message : String)
      → db.delete_evidence id s ≡ done (found, s1)
      → after_delete rt db ct found s1 ≡ (done (error code message), s')
      → HasSameRows db s s'
  unfolding after_delete
  after_delete-rejects id none s s1 s' code message w e =
      let (missing, rows, same) = L.delete_evidence_lem id s none s1 w in
      subst (HasSameRows db s) (ap (λ x. x.1) e)
        (same, rows ∙ unremoved (is_evidence id) (db.evidence s) (sym missing))
  after_delete-rejects id (some ev) s s1 s' code message w e =
      let (s2, _, e1) = >>-done _ _ s1 e in absurd (cc)
