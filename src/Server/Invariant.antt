-- ===== src/Server/Invariant.antt =====
-- The consistency of the two tables, and (in the children) the operations that it concerns.
pub mod Steps
pub mod Documents
pub mod Removal
pub mod Recalc
pub mod Registry
pub mod Filing
use development_plan.Base.{ℕ, String, ◌≡◌, ◌≢◌, List, none, some, count, find, All, HasUniqueKeys}
use development_plan.Server.Schema.{Parcel, Evidence}
use development_plan.Server.Database.{Database, parcel_key, evidence_key, has_id}
use development_plan.Server.Trust.{compute_trust_score}
use development_plan.Server.ParcelRoutes.{is_verified_of}

-- The score that a parcel should have, by its status and its verified documents.
abbrev pub expected_score : List Evidence → String → String → ℕ
expected_score es id status =
    compute_trust_score
      (record { status = status; evidence_count = some (count (is_verified_of id) es) })

module _ {N : Type 0} where
  abbrev pub IsScored : List Evidence → Parcel N → Type 0
  IsScored es p = p.trust_score ≡ expected_score es p.id p.status

  -- Every parcel but one has its score.
  abbrev pub AreScoredBut : String → List (Parcel N) → List Evidence → Type 0
  AreScoredBut id ps es = All (λ p. p.id ≢ id → IsScored es p) ps

  -- A document belongs to a parcel that exists.
  abbrev pub IsOwned : List (Parcel N) → Evidence → Type 0
  IsOwned ps e = find (has_id e.parcel_id) ps ≢ none

  -- The primary keys are unique, and every document is owned.
  pub record IsIntact (ps : List (Parcel N)) (es : List Evidence) : Type 0 where
    pub parcel_keys : HasUniqueKeys parcel_key ps
    pub evidence_keys : HasUniqueKeys evidence_key es
    pub owned : All (IsOwned ps) es

  -- And every parcel's stored score is the one that `computeTrustScore` gives to its status and to
  -- the number of its verified documents.
  pub record IsConsistent (ps : List (Parcel N)) (es : List Evidence) : Type 0 where
    pub intact : IsIntact ps es
    pub scored : All (IsScored es) ps

  abbrev pub Holds : (db : Database N) → db.State → Type 0
  Holds db s = IsConsistent (db.parcels s) (db.evidence s)
