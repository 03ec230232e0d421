-- ===== src/Server/Invariant/Registry.antt =====
-- The routes of artifacts/api-server/src/routes/parcels.ts and the consistency of the tables.
use mathlib.Core.Logic.{if_neg}
use development_plan.Base.{
  ℕ, String, ◌≡◌, refl, sym, ap, ◌∙◌, ◌≢◌, none, some, Option, count, subst, subst₂, Bool-cases,
  inl, inr, string_eq,
}
use development_plan.Base.Attempt.{
  done, >>=-query, >>=-statement, >>=-attempt, >>=-done, return-done,
}
use development_plan.Base.RowLaws
use development_plan.Server.Schema.{Parcel, ParcelChanges, Optional, assign, stored_changes}
use development_plan.Server.Database.{Database, IsLawful}
use development_plan.Server.Contract.{
  Runtime, Contract, Response, RouteParam, raw_id, or_bad_request-keeps, UpdateParcelBody, success,
}
use development_plan.Server.Trust.{compute_trust_score}
use development_plan.Server.ParcelRoutes.{
  is_verified_of, create_parcel, update_parcel, delete_parcel, respond_updated, rescore,
  apply_updates, respond_deleted, provided_changes, has_no_keys,
}
use development_plan.Server.Invariant.{expected_score, IsScored, IsConsistent, Holds}
use development_plan.Server.Invariant.Steps.{update_parcel-IsConsistent, insert_parcel-IsConsistent}
use development_plan.Server.Invariant.Removal.{
  delete_parcel-IsConsistent, delete_parcel-IsConsistent_absent,
}

-- A parcel that nobody has filed documents for.
initial_score : compute_trust_score (record { status = "pending"; evidence_count = some 0 }) ≡ 10
unfolding compute_trust_score string_eq
initial_score = refl

module _ {N : Type 0} (rt : Runtime N) (db : Database N) (ct : Contract N) (L : IsLawful db) where
  pub create_parcel-Holds :
      (request : ct.Json) (year draw : ℕ) (s s' : db.State) (r : Response ct.Reply)
      → Holds db s
      → create_parcel rt db ct request year draw s ≡ (done r, s')
      → Holds db s'
  unfolding create_parcel
  create_parcel-Holds request year draw s s' r k =
      or_bad_request-keeps (Holds db) (ct.create_parcel_body request) _ s s' r k λ d _ e.
        let (p, s1, inserted, e1) = >>=-statement _ _ s e in
        let (_, _, e2) = >>=-attempt _ _ s1 e1 in
        let (created, updated, made, fresh, rows, same) = L.insert_parcel_lem _ s p s1 inserted in
        let score =
          ap (λ q. q.trust_score) made
          ∙ sym initial_score
          ∙ ap (λ q. compute_trust_score (record { status = q.status; evidence_count = some 0 }))
              (sym made) in
        let after = insert_parcel-IsConsistent p (db.parcels s) (db.evidence s) fresh score k in
        subst (Holds db) (ap (λ x. x.1) e2) (subst₂ IsConsistent (sym rows) (sym same) after)

  pub respond_updated-same :
      (found : Option (Parcel N)) (s s' : db.State) (r : Response ct.Reply)
      → respond_updated rt db ct found s ≡ (done r, s')
      → s ≡ s'
  unfolding respond_updated
  respond_updated-same none s s' r e = ap (λ x. x.1) e
  respond_updated-same (some p) s s' r e =
      let (_, _, rest) = >>=-attempt _ _ s e in ap (λ x. x.1) rest

  -- What the columns of an UPDATE must give to each row with the id.
  abbrev Rescores : String → db.State → ParcelChanges N → Type 0
  Rescores id s c =
      (p : Parcel N)
      → IsScored (db.evidence s) p
      → p.id ≡ id
      → assign c.trust_score p.trust_score
        ≡ expected_score (db.evidence s) id (assign c.status p.status)

  Rescores-unset :
      (id : String) (s : db.State) (c : ParcelChanges N)
      → c.status ≡ none
      → c.trust_score ≡ none
      → Rescores id s c
  Rescores-unset id s c same unset p score is_id =
      rw (unset, same)
        (subst (λ i. p.trust_score ≡ expected_score (db.evidence s) i p.status) is_id score)

  Rescores-set :
      (id status : String) (s : db.State) (c : ParcelChanges N) (n : ℕ)
      → c.status ≡ some status
      → n ≡ count (is_verified_of id) (db.evidence s)
      → Rescores id s (record c {
        trust_score =
            some (compute_trust_score (record { status = status; evidence_count = some n }));
      })
  Rescores-set id status s c n same counted p score is_id = rw (same, counted)

  rescore-Rescores :
      (id : String) (status : Optional String) (c c' : ParcelChanges N) (s s' : db.State)
      → c.status ≡ status
      → c.trust_score ≡ none
      → status ≢ some ""
      → rescore rt db ct id status c s ≡ (done c', s')
      → (s ≡ s') × Rescores id s c'
  unfolding rescore
  rescore-Rescores id none c c' s s' same unset valid e =
      let (kept, stays) = return-done c s e in
      (stays, subst (Rescores id s) kept (Rescores-unset id s c same unset))
  rescore-Rescores id (some status) c c' s s' same unset valid e = elim (string_eq.dec status "") [
    | yes empty ↦ absurd (valid (ap some empty))
    | no n ↦
        let (n, counted, e1) = >>=-query _ _ s (rw (if_neg _ n) at e) in
        let (kept, stays) = return-done _ s e1 in
        (
          stays,
          subst (Rescores id s) kept
              (Rescores-set id status s c n same (L.count_evidence_lem _ s n counted)),
        )
  ]

  -- An UPDATE of columns that give every row with the id its score.
  changed-Holds :
      (id : String) (c : ParcelChanges N) (s s' : db.State) (found : Option (Parcel N))
      → Holds db s
      → Rescores id s c
      → db.update_parcel c id s ≡ done (found, s')
      → Holds db s'
  changed-Holds id c s s' found k rescores written =
      let (time, rows, _, same) = L.update_parcel_lem c id s found s' written in
      let after =
        update_parcel-IsConsistent (stored_changes db.read_numeric c) id time (db.parcels s)
          (db.evidence s) k.intact (RowLaws.All-imp (λ p score _. score) (db.parcels s) k.scored)
          (RowLaws.All-imp rescores (db.parcels s) k.scored) in
      subst₂ IsConsistent (sym rows) (sym same) after

  apply_updates-Holds :
      (id : String) (d : UpdateParcelBody N) (s s' : db.State) (r : Response ct.Reply)
      → d.status ≢ some ""
      → Holds db s
      → apply_updates rt db ct id d s ≡ (done r, s')
      → Holds db s'
  unfolding apply_updates provided_changes
  apply_updates-Holds id d s s' r valid k e =
      elim (Bool-cases (has_no_keys (provided_changes rt d))) [
        | inl empty ↦
            let (found, _, e1) = >>=-query _ _ s (rw empty at e) in
            subst (Holds db) (respond_updated-same found s s' r e1) k
        | inr given ↦
            let (c, s1, scored, e1) = >>=-done _ _ s (rw given at e) in
            let (stays, rescores) =
              rescore-Rescores id d.status (provided_changes rt d) c s s1 refl refl valid scored in
            let (found, s2, written, e2) = >>=-statement _ _ s1 e1 in
            subst (Holds db) (respond_updated-same found s2 s' r e2) (
              changed-Holds id c s s2 found k rescores
                (subst (λ t. db.update_parcel c id t ≡ done (found, s2)) (sym stays) written))
      ]

  pub update_parcel-Holds :
      (param : RouteParam) (request : ct.Json) (s s' : db.State) (r : Response ct.Reply)
      → ((d : UpdateParcelBody N) → ct.update_parcel_body request ≡ success d → d.status ≢ some "")
      → Holds db s
      → update_parcel rt db ct param request s ≡ (done r, s')
      → Holds db s'
  unfolding update_parcel
  update_parcel-Holds param request s s' r valid k =
      or_bad_request-keeps (Holds db) (ct.update_parcel_params (raw_id param)) _ s s' r k λ _ _.
        or_bad_request-keeps (Holds db) (ct.update_parcel_body request) _ s s' r k
          λ d parsed. apply_updates-Holds (db.read_uuid (raw_id param)) d s s' r (valid d parsed) k

  pub respond_deleted-same :
      (found : Option (Parcel N)) (s s' : db.State) (r : Response ct.Reply)
      → respond_deleted rt db ct found s ≡ (done r, s')
      → s ≡ s'
  unfolding respond_deleted
  respond_deleted-same none s s' r e = ap (λ x. x.1) e
  respond_deleted-same (some p) s s' r e = ap (λ x. x.1) e

  removed-Holds :
      (id : String) (s s' : db.State) (found : Option (Parcel N))
      → Holds db s
      → db.delete_parcel id s ≡ done (found, s')
      → Holds db s'
  removed-Holds id s s' none k e =
      let (gone, rows, same) = L.delete_parcel_lem id s none s' e in
      subst₂ IsConsistent (sym rows) (sym same)
        (delete_parcel-IsConsistent_absent (db.parcels s) (db.evidence s) id (sym gone) k)
  removed-Holds id s s' (some p) k e =
      let (gone, rows, same) = L.delete_parcel_lem id s (some p) s' e in
      subst₂ IsConsistent (sym rows) (sym same)
        (delete_parcel-IsConsistent (db.parcels s) (db.evidence s) id k)

  pub delete_parcel-Holds :
      (param : RouteParam) (s s' : db.State) (r : Response ct.Reply)
      → Holds db s
      → delete_parcel rt db ct param s ≡ (done r, s')
      → Holds db s'
  unfolding delete_parcel
  delete_parcel-Holds param s s' r k =
      or_bad_request-keeps (Holds db) (ct.delete_parcel_params (raw_id param)) _ s s' r k λ _ _ e.
        let (found, s1, deleted, e1) = >>=-statement _ _ s e in
        subst (Holds db) (respond_deleted-same found s1 s' r e1)
          (removed-Holds (db.read_uuid (raw_id param)) s s1 found k deleted)
