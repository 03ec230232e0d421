-- ===== src/Server/Invariant/Steps.antt =====
-- What each change of the tables that a statement makes keeps of the invariant.
use development_plan.Base.{
  ℕ, String, ◌≡◌, sym, ap, ◌∙◌, ◌≢◌, false, none, some, List, ◌∷◌, map, count, find, All, arith,
  string_eq,
}
use development_plan.Base.RowLaws
use development_plan.Server.Schema.{Parcel, ParcelChanges, assign, Evidence, EvidenceChanges}
use development_plan.Server.Database.{parcel_key, has_id, changed_parcel, changed_evidence}
use development_plan.Server.Trust.{compute_trust_score}
use development_plan.Server.ParcelRoutes.{is_verified_of}
use development_plan.Server.Invariant.{
  expected_score, IsScored, AreScoredBut, IsOwned, IsIntact, IsConsistent,
}

-- The score depends on the evidence by one count.
expected_score_same :
    (es es' : List Evidence) (id status : String)
    → count (is_verified_of id) es' ≡ count (is_verified_of id) es
    → expected_score es' id status ≡ expected_score es id status
expected_score_same es es' id status e = rw e

pub changed_parcel-id :
    {N : Type 0} (c : ParcelChanges N) (id : String) (time : ℕ) (p : Parcel N)
    → (changed_parcel c id time p).id ≡ p.id
changed_parcel-id c id time p = ground arith

changed_evidence-id :
    (c : EvidenceChanges) (id : String) (e : Evidence) → (changed_evidence c id e).id ≡ e.id
changed_evidence-id c id e = ground arith

changed_evidence-parcel_id :
    (c : EvidenceChanges) (id : String) (e : Evidence)
    → (changed_evidence c id e).parcel_id ≡ e.parcel_id
changed_evidence-parcel_id c id e = ground arith

module _ {N : Type 0} where
  find-map-ne-none :
      (f : Parcel N → Parcel N) (ps : List (Parcel N)) (id : String)
      → ((p : Parcel N) → (f p).id ≡ p.id)
      → find (has_id id) ps ≢ none
      → find (has_id id) (map f ps) ≢ none
  find-map-ne-none f ps id same present absent =
      present (ground (arith, RowLaws.find-map parcel_key f same id ps))

  changed_parcel-IsScored :
      (c : ParcelChanges N) (id : String) (time : ℕ) (es : List Evidence) (p : Parcel N)
      → (p.id ≢ id → IsScored es p)
      → (p.id ≡ id
          → assign c.trust_score p.trust_score ≡ expected_score es id (assign c.status p.status))
      → IsScored es (changed_parcel c id time p)
  changed_parcel-IsScored c id time es p other own = elim (string_eq.dec p.id id) [
    | yes e ↦ ground (arith, own e)
    | no n ↦ ground (arith, other n)
  ]

  -- An UPDATE of a parcel that gives it the score of its new status.
  pub update_parcel-IsConsistent :
      (c : ParcelChanges N) (id : String) (time : ℕ) (ps : List (Parcel N)) (es : List Evidence)
      → IsIntact ps es
      → AreScoredBut id ps es
      → All
          (λ p.
            p.id ≡ id
            → assign c.trust_score p.trust_score ≡ expected_score es id (assign c.status p.status))
          ps
      → IsConsistent (map (changed_parcel c id time) ps) es
  update_parcel-IsConsistent c id time ps es k others own =
      let same = changed_parcel-id c id time in
      record {
        intact = record {
          parcel_keys = RowLaws.HasUniqueKeys-map parcel_key _ same ps k.parcel_keys;
          evidence_keys = k.evidence_keys;
          owned = RowLaws.All-imp (λ e. find-map-ne-none _ ps e.parcel_id same) es k.owned;
        };
        scored =
            RowLaws.All-map _ _ ps
              (RowLaws.All-imp₂ (changed_parcel-IsScored c id time es) ps others own);
      }

  owned_elsewhere :
      (ps : List (Parcel N)) (id : String) (e : Evidence)
      → find (has_id id) ps ≡ none
      → IsOwned ps e
      → is_verified_of id e ≡ false
  owned_elsewhere ps id e fresh own = elim (string_eq.dec e.parcel_id id) [
    | yes same ↦ absurd (own (rw same fresh))
    | no n ↦ ground arith
  ]

  -- An INSERT of a parcel with the score of its status and no document.
  pub insert_parcel-IsConsistent :
      (r : Parcel N) (ps : List (Parcel N)) (es : List Evidence)
      → find (has_id r.id) ps ≡ none
      → r.trust_score ≡ compute_trust_score (record { status = r.status; evidence_count = some 0 })
      → IsConsistent ps es
      → IsConsistent (r ∷ ps) es
  insert_parcel-IsConsistent r ps es fresh score k = record {
    intact = record {
      parcel_keys = (fresh, k.intact.parcel_keys);
      evidence_keys = k.intact.evidence_keys;
      owned = RowLaws.All-imp (λ e own absent. own (ground arith)) es k.intact.owned;
    };
    scored = (
      score
          ∙ ap (λ n. compute_trust_score (record { status = r.status; evidence_count = some n }))
              (sym (
                RowLaws.count-eq-zero _ es
                  (RowLaws.All-imp (λ e. owned_elsewhere ps r.id e fresh) es k.intact.owned))),
      k.scored,
    );
  }
