-- ===== src/Server/Invariant/Documents.antt =====
-- What inserting, changing and deleting documents keeps of the invariant.
use development_plan.Base.{
  ℕ, String, ◌≡◌, sym, ap, ◌∙◌, ◌≢◌, true, false, not, none, some, List, ◌∷◌, map, count, find,
  keep, arith, string_eq,
}
use text.Mathlib.TextEquality.{eq_iff}
use development_plan.Base.RowLaws
use development_plan.Server.Schema.{Parcel, Evidence, NewEvidence, new_evidence, EvidenceChanges}
use development_plan.Server.Database.{evidence_key, has_id, is_evidence, changed_evidence}
use development_plan.Server.ParcelRoutes.{is_verified_of}
use development_plan.Server.Invariant.{IsScored, AreScoredBut, IsOwned, IsIntact, IsConsistent}

changed_evidence-id :
    (c : EvidenceChanges) (id : String) (e : Evidence) → (changed_evidence c id e).id ≡ e.id
changed_evidence-id c id e = ground arith

changed_evidence-parcel_id :
    (c : EvidenceChanges) (id : String) (e : Evidence)
    → (changed_evidence c id e).parcel_id ≡ e.parcel_id
changed_evidence-parcel_id c id e = ground arith

unnamed_untouched :
    (c : EvidenceChanges) (id other : String) (e : Evidence)
    → (changed_evidence c id e).id ≢ id
    → is_verified_of other (changed_evidence c id e) ≡ is_verified_of other e
unnamed_untouched c id other e differs = elim (string_eq.dec e.id id) [
  | yes same ↦ absurd (differs (changed_evidence-id c id e ∙ same))
  | no n ↦ ground arith
]

pending-is_verified_of :
    (id : String) (r : Evidence) → r.status ≡ "pending_review" → is_verified_of id r ≡ false
pending-is_verified_of id r pending = ground (arith, eq_iff "pending_review" "verified")

-- A score stays right while the count of its parcel's verified documents stays.
pub IsScored-same :
    {N : Type 0} (es es' : List Evidence) (p : Parcel N)
    → count (is_verified_of p.id) es' ≡ count (is_verified_of p.id) es
    → IsScored es p
    → IsScored es' p
IsScored-same es es' p e score = rw e score

module _ {N : Type 0} (ps : List (Parcel N)) (es : List Evidence) where
  changed_evidence-IsOwned :
      (c : EvidenceChanges) (id : String) (e : Evidence)
      → IsOwned ps e
      → IsOwned ps (changed_evidence c id e)
  changed_evidence-IsOwned c id e own = ground arith

  pub update_evidence-IsIntact :
      (c : EvidenceChanges) (id : String)
      → IsIntact ps es
      → IsIntact ps (map (changed_evidence c id) es)
  update_evidence-IsIntact c id k = record {
    parcel_keys = k.parcel_keys;
    evidence_keys =
        RowLaws.HasUniqueKeys-map evidence_key _ (changed_evidence-id c id) es k.evidence_keys;
    owned = RowLaws.All-map _ _ es (RowLaws.All-imp (changed_evidence-IsOwned c id) es k.owned);
  }

  pub delete_evidence-IsIntact :
      (id : String) → IsIntact ps es → IsIntact ps (keep (λ e. not (is_evidence id e)) es)
  delete_evidence-IsIntact id k = record {
    parcel_keys = k.parcel_keys;
    evidence_keys = RowLaws.HasUniqueKeys-keep evidence_key _ es k.evidence_keys;
    owned = RowLaws.All-imp (λ e h. h.1) _ (RowLaws.All-keep (IsOwned ps) _ es k.owned);
  }

  -- A new document awaits review and counts for no score.
  pub insert_evidence-IsConsistent :
      (v : NewEvidence) (r : Evidence) (uploaded : ℕ)
      → r ≡ new_evidence v r.id uploaded
      → v.status ≡ "pending_review"
      → find (is_evidence r.id) es ≡ none
      → find (has_id v.parcel_id) ps ≢ none
      → IsConsistent ps es
      → IsConsistent ps (r ∷ es)
  insert_evidence-IsConsistent v r uploaded made status fresh present k = record {
    intact = record {
      parcel_keys = k.intact.parcel_keys;
      evidence_keys = (fresh, k.intact.evidence_keys);
      owned = (rw (ap (λ e. e.parcel_id) made) present, k.intact.owned);
    };
    scored =
        RowLaws.All-imp
          (λ p.
            IsScored-same es (r ∷ es) p
              (ground (arith, pending-is_verified_of p.id r (rw (ap (λ e. e.status) made) status))))
          ps k.scored;
  }

  module _ (id : String) (u : Evidence) where
    owner_of :
        (c : EvidenceChanges) (e : Evidence)
        → ((changed_evidence c id e).id ≡ id → changed_evidence c id e ≡ u)
        → e.id ≡ id
        → e.parcel_id ≡ u.parcel_id
    owner_of c e only same =
        sym (changed_evidence-parcel_id c id e)
        ∙ ap (λ d. d.parcel_id) (only (changed_evidence-id c id e ∙ same))

    -- The documents of other parcels are untouched where the one with the id is `u`'s.
    untouched :
        (c : EvidenceChanges) (other : String) (e : Evidence)
        → other ≢ u.parcel_id
        → (e.id ≡ id → e.parcel_id ≡ u.parcel_id)
        → is_verified_of other (changed_evidence c id e) ≡ is_verified_of other e
    untouched c other e differs owner = elim (string_eq.dec e.id id) [
      | yes same ↦ ground (arith, owner same)
      | no n ↦ ground arith
    ]

    kept_elsewhere :
        (other : String) (e : Evidence)
        → other ≢ u.parcel_id
        → (e.id ≡ id → e ≡ u)
        → is_verified_of other e ≡ true
        → not (is_evidence id e) ≡ true
    kept_elsewhere other e differs owner verified = elim (string_eq.dec e.id id) [
      | yes same ↦ ground (arith, owner same)
      | no n ↦ ground arith
    ]

    -- After an UPDATE of one document only its parcel's score may be wrong.
    pub update_evidence-AreScoredBut :
        (c : EvidenceChanges)
        → find (is_evidence id) (map (changed_evidence c id) es) ≡ some u
        → IsConsistent ps es
        → AreScoredBut u.parcel_id ps (map (changed_evidence c id) es)
    update_evidence-AreScoredBut c found k =
        let changed = changed_evidence c id in
        let owner = RowLaws.All-of-map _ changed es (
          RowLaws.All-unique evidence_key id (map changed es) u
            (update_evidence-IsIntact c id k.intact).evidence_keys found) in
        RowLaws.All-imp
          (λ p score differs.
            IsScored-same es _ p
              (RowLaws.count-map _ changed es (
                RowLaws.All-imp
                  (λ e only. untouched c p.id e differs λ same. owner_of c e only same) es owner))
              score)
          ps k.scored

    -- After the DELETE of a document, too.
    pub delete_evidence-AreScoredBut :
        find (is_evidence id) es ≡ some u
        → IsConsistent ps es
        → AreScoredBut u.parcel_id ps (keep (λ e. not (is_evidence id e)) es)
    delete_evidence-AreScoredBut found k =
        RowLaws.All-imp
          (λ p score differs.
            IsScored-same es _ p
              (RowLaws.count-keep _ _ es (
                RowLaws.All-imp (λ e only. kept_elsewhere p.id e differs only) es
                  (RowLaws.All-unique evidence_key id es u k.intact.evidence_keys found)))
              score)
          ps k.scored

  -- Where the status of no document changes, every score stays right.
  pub update_evidence-IsConsistent :
      (c : EvidenceChanges) (id : String)
      → c.status ≡ none
      → IsConsistent ps es
      → IsConsistent ps (map (changed_evidence c id) es)
  update_evidence-IsConsistent c id unset k = record {
    intact = update_evidence-IsIntact c id k.intact;
    scored =
        RowLaws.All-imp
          (λ p. IsScored-same es _ p (
            RowLaws.count-map _ (changed_evidence c id) es (
              RowLaws.All-of
                (λ e. is_verified_of p.id (changed_evidence c id e) ≡ is_verified_of p.id e)
                (λ e. ground arith) es)))
          ps k.scored;
  }

  -- An UPDATE of a document that is not there changes no row.
  pub update_evidence-IsConsistent_absent :
      (c : EvidenceChanges) (id : String)
      → find (is_evidence id) (map (changed_evidence c id) es) ≡ none
      → IsConsistent ps es
      → IsConsistent ps (map (changed_evidence c id) es)
  update_evidence-IsConsistent_absent c id gone k = record {
    intact = update_evidence-IsIntact c id k.intact;
    scored =
        RowLaws.All-imp
          (λ p. IsScored-same es _ p (
            RowLaws.count-map _ (changed_evidence c id) es (
              RowLaws.All-imp (λ e. unnamed_untouched c id p.id e) es
                (RowLaws.All-of-map _ (changed_evidence c id) es
                  (RowLaws.All-absent evidence_key id _ gone)))))
          ps k.scored;
  }

  kept_unnamed : (id : String) (e : Evidence) → e.id ≢ id → not (is_evidence id e) ≡ true
  kept_unnamed id e differs = ground arith

  pub delete_evidence-IsConsistent_absent :
      (id : String)
      → find (is_evidence id) es ≡ none
      → IsConsistent ps es
      → IsConsistent ps (keep (λ e. not (is_evidence id e)) es)
  delete_evidence-IsConsistent_absent id gone k =
      let all_pass =
        RowLaws.All-imp (kept_unnamed id) es (RowLaws.All-absent evidence_key id es gone) in
      rw (RowLaws.keep-All (λ e. not (is_evidence id e)) es all_pass) k
