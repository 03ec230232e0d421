-- ===== src/Server/Trust.antt =====
-- The trust score of a parcel: `computeTrustScore` of routes/parcels.ts, and the computation that
-- `recalcTrustScore` of routes/evidence.ts writes out once more. A JavaScript number below 2 ^ 53
-- is a natural number here; the score is 10 at least where 10 is subtracted.
pub mod Laws
use mathlib.Core.Option.{get_or}
use development_plan.Base.{ℕ, ◌+◌, ◌-◌, ◌*◌, min, max, String, ◌==◌, string_eq, if◌then◌else◌}
use development_plan.Server.Schema.{Optional}

-- The argument of `computeTrustScore`.
pub record Standing : Type 0 where
  pub status : String
  pub evidence_count : Optional ℕ

unfoldable pub compute_trust_score : Standing → ℕ
compute_trust_score parcel =
    let start : ℕ = 10 in
    let registered = if parcel.status == "registered" then start + 40 else start in
    let disputed = if parcel.status == "disputed" then registered - 10 else registered in
    let evidence_count = get_or parcel.evidence_count 0 in
    let score = disputed + min (evidence_count * 12) 50 in min 100 (max 0 score)

-- The score of `recalcTrustScore`, from the parcel's status and its verified evidence.
unfoldable pub recalculated_score : String → ℕ → ℕ
recalculated_score status evidence_count =
    let start : ℕ = 10 in
    let registered = if status == "registered" then start + 40 else start in
    let disputed = if status == "disputed" then registered - 10 else registered in
    let score = disputed + min (evidence_count * 12) 50 in min 100 (max 0 score)
