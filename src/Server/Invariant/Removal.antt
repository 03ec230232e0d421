-- ===== src/Server/Invariant/Removal.antt =====
-- What deleting a parcel keeps of the invariant.
use development_plan.Base.{
  String, ◌≡◌, sym, ◌∙◌, ◌≢◌, true, not, none, List, find, keep, arith, string_eq,
}
use development_plan.Base.RowLaws
use development_plan.Server.Schema.{Parcel, Evidence}
use development_plan.Server.Database.{parcel_key, evidence_key, has_id, belongs_to}
use development_plan.Server.ParcelRoutes.{is_verified_of}
use development_plan.Server.Invariant.{IsScored, IsOwned, IsConsistent}
use development_plan.Server.Invariant.Documents.{IsScored-same}

elsewhere_kept :
    {N : Type 0} (id : String) (p : Parcel N) (e : Evidence)
    → not (has_id id p) ≡ true
    → is_verified_of p.id e ≡ true
    → not (belongs_to id e) ≡ true
elsewhere_kept id p e other verified = ground arith

unnamed_kept : {N : Type 0} (id : String) (p : Parcel N) → p.id ≢ id → not (has_id id p) ≡ true
unnamed_kept id p differs = ground arith

module _ {N : Type 0} (ps : List (Parcel N)) (es : List Evidence) where
  still-IsOwned :
      (id : String) (e : Evidence)
      → not (belongs_to id e) ≡ true
      → IsOwned ps e
      → IsOwned (keep (λ p. not (has_id id p)) ps) e
  still-IsOwned id e other own absent = own (
      sym (
        RowLaws.find-keep parcel_key e.parcel_id (λ p. not (has_id id p)) ps
          (RowLaws.All-of (λ p. p.id ≡ e.parcel_id → not (has_id id p) ≡ true)
            (λ p same. ground arith) ps))
      ∙ absent)

  -- A parcel goes with its documents.
  pub delete_parcel-IsConsistent :
      (id : String)
      → IsConsistent ps es
      → IsConsistent (keep (λ p. not (has_id id p)) ps) (keep (λ e. not (belongs_to id e)) es)
  delete_parcel-IsConsistent id k = record {
    intact = record {
      parcel_keys = RowLaws.HasUniqueKeys-keep parcel_key _ ps k.intact.parcel_keys;
      evidence_keys = RowLaws.HasUniqueKeys-keep evidence_key _ es k.intact.evidence_keys;
      owned =
          RowLaws.All-imp (λ e h. still-IsOwned id e h.0 h.1) _
            (RowLaws.All-keep (IsOwned ps) _ es k.intact.owned);
    };
    scored =
        RowLaws.All-imp
          (λ p h.
            IsScored-same es _ p
              (RowLaws.count-keep _ _ es (
                RowLaws.All-of (λ e. is_verified_of p.id e ≡ true → not (belongs_to id e) ≡ true)
                  (λ e. elsewhere_kept id p e h.0) es))
              h.1)
          _ (RowLaws.All-keep (IsScored es) _ ps k.scored);
  }

  pub delete_parcel-IsConsistent_absent :
      (id : String)
      → find (has_id id) ps ≡ none
      → IsConsistent ps es
      → IsConsistent (keep (λ p. not (has_id id p)) ps) es
  delete_parcel-IsConsistent_absent id gone k =
      let all_pass =
        RowLaws.All-imp (λ p. unnamed_kept id p) ps (RowLaws.All-absent parcel_key id ps gone) in
      rw (RowLaws.keep-All (λ p. not (has_id id p)) ps all_pass) k
