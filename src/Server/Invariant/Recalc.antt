-- ===== src/Server/Invariant/Recalc.antt =====
-- `recalcTrustScore` of artifacts/api-server/src/routes/evidence.ts and the stored scores.
use development_plan.Base.{ℕ, String, ◌≡◌, sym, ap, none, some, Option, find, count, subst, subst₂}
use development_plan.Base.Attempt.{done, >>=-query, >>=-statement}
use development_plan.Base.RowLaws
use development_plan.Server.Schema.{Parcel}
use development_plan.Server.Database.{Database, IsLawful, parcel_key, has_id}
use development_plan.Server.Contract.{Runtime, Contract}
use development_plan.Server.Trust.{recalculated_score}
use development_plan.Server.Trust.Laws.{recalculated_score-compute_trust_score}
use development_plan.Server.ParcelRoutes.{is_verified_of}
use development_plan.Server.EvidenceRoutes.{
  only_score, write_score, rescore_found, recalc_trust_score,
}
use development_plan.Server.Invariant.{expected_score, AreScoredBut, IsIntact, IsConsistent, Holds}
use development_plan.Server.Invariant.Steps.{update_parcel-IsConsistent}

module _ {N : Type 0} (rt : Runtime N) (db : Database N) (ct : Contract N) (L : IsLawful db) where
  rescored :
      (id : String) (p q : Parcel N) (s : db.State) (n : ℕ)
      → n ≡ count (is_verified_of id) (db.evidence s)
      → q ≡ p
      → recalculated_score p.status n ≡ expected_score (db.evidence s) id q.status
  rescored id p q s n counted same =
      rw (counted, same) (recalculated_score-compute_trust_score p.status _)

  write_score-Holds :
      (id : String) (p : Parcel N) (s s' : db.State) {u : Unit {0}}
      → find (has_id id) (db.parcels s) ≡ some p
      → IsIntact (db.parcels s) (db.evidence s)
      → AreScoredBut id (db.parcels s) (db.evidence s)
      → write_score rt db ct id p s ≡ (done u, s')
      → Holds db s'
  unfolding write_score
  write_score-Holds id p s s' found k others e =
      let (n, counted, e1) = >>=-query _ _ s e in
      let (r, s1, written, e2) = >>=-statement _ _ s e1 in
      let (time, rows, _, same) = L.update_parcel_lem _ id s r s1 written in
      let own =
        RowLaws.All-imp
          (λ q only is_id. rescored id p q s n (L.count_evidence_lem _ s n counted) (only is_id))
          (db.parcels s) (RowLaws.All-unique parcel_key id (db.parcels s) p k.parcel_keys found) in
      let after =
        update_parcel-IsConsistent (only_score (recalculated_score p.status n)) id time
          (db.parcels s) (db.evidence s) k others own in
      subst (Holds db) (ap (λ x. x.1) e2) (subst₂ IsConsistent (sym rows) (sym same) after)

  rescore_found-Holds :
      (id : String) (found : Option (Parcel N)) (s s' : db.State) {u : Unit {0}}
      → found ≡ find (has_id id) (db.parcels s)
      → IsIntact (db.parcels s) (db.evidence s)
      → AreScoredBut id (db.parcels s) (db.evidence s)
      → rescore_found rt db ct id found s ≡ (done u, s')
      → Holds db s'
  unfolding rescore_found
  rescore_found-Holds id none s s' gone k others e = subst (Holds db) (ap (λ r. r.1) e) (record {
    intact = k;
    scored =
        RowLaws.All-imp₂ (λ p other differs. other differs) (db.parcels s) others
          (RowLaws.All-absent parcel_key id (db.parcels s) (sym gone));
  })
  rescore_found-Holds id (some p) s s' found k others e =
      write_score-Holds id p s s' (sym found) k others e

  -- On a database that meets the SQL assumptions, and where the keys are unique, every document has
  -- its parcel and every parcel but the given one has its score: `recalcTrustScore`, if it ends
  -- without a throw, leaves every parcel with its score.
  pub recalc_trust_score-Holds :
      (id : String) (s s' : db.State) {u : Unit {0}}
      → IsIntact (db.parcels s) (db.evidence s)
      → AreScoredBut id (db.parcels s) (db.evidence s)
      → recalc_trust_score rt db ct id s ≡ (done u, s')
      → Holds db s'
  unfolding recalc_trust_score
  recalc_trust_score-Holds id s s' k others e =
      let (found, asked, rest) = >>=-query (db.find_parcel id) _ s e in
      rescore_found-Holds id found s s' (L.find_parcel_lem id s found asked) k others rest
