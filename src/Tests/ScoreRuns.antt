-- ===== src/Tests/ScoreRuns.antt =====
-- The score laws at concrete parcels.
use development_plan.Base.{◌+◌, ◌*◌, ◌≡◌, some, min}
use development_plan.Server.Trust.{compute_trust_score, recalculated_score}
use development_plan.Server.Trust.Laws.{
  recalculated_score-compute_trust_score, compute_trust_score-eq, status_worth,
}

recalculated_score-compute_trust_score_example :
    recalculated_score "disputed" 2
    ≡ compute_trust_score (record { status = "disputed"; evidence_count = some 2 })
recalculated_score-compute_trust_score_example = recalculated_score-compute_trust_score "disputed" 2

compute_trust_score-eq_example :
    compute_trust_score (record { status = "registered"; evidence_count = some 3 })
    ≡ status_worth "registered" + min (12 * 3) 50
compute_trust_score-eq_example = compute_trust_score-eq "registered" 3
