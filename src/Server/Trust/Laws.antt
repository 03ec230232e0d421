-- ===== src/Server/Trust/Laws.antt =====
-- The two score computations: how they compare, and what a score depends on.
use development_plan.Base.{
  ℕ, ◌+◌, ◌*◌, ◌≤◌, String, ◌≡◌, ◌≢◌, refl, some, arith, string_eq, ◌==◌, min, if◌then◌else◌,
}
use text.Mathlib.TextEquality.{eq_iff}
use development_plan.Server.Trust.{Standing, compute_trust_score, recalculated_score}

-- The computation that `recalcTrustScore` writes out gives the score of `computeTrustScore`, for
-- every status and count.
pub recalculated_score-compute_trust_score :
    (status : String) (n : ℕ)
    → recalculated_score status n
      ≡ compute_trust_score (record { status = status; evidence_count = some n })
unfolding recalculated_score compute_trust_score
recalculated_score-compute_trust_score status n = refl

-- A score is a percentage, for every status and every number of documents.
pub compute_trust_score-le : (p : Standing) → compute_trust_score p ≤ 100
unfolding compute_trust_score
compute_trust_score-le p = omega arith

-- More verified documents never lower the score.
pub compute_trust_score_mono :
    (status : String) (m n : ℕ)
    → m ≤ n
    → compute_trust_score (record { status = status; evidence_count = some m })
      ≤ compute_trust_score (record { status = status; evidence_count = some n })
unfolding compute_trust_score
compute_trust_score_mono status m n h = omega arith

-- Documents past the fifth add nothing.
pub compute_trust_score_saturates :
    (status : String) (n : ℕ)
    → 5 ≤ n
    → compute_trust_score (record { status = status; evidence_count = some n })
      ≡ compute_trust_score (record { status = status; evidence_count = some 5 })
unfolding compute_trust_score
compute_trust_score_saturates status n h = ground arith

registered-ne-disputed : ◌≢◌ {A = String} "registered" "disputed"
registered-ne-disputed = ground (arith, eq_iff "registered" "disputed")

-- What the status alone is worth.
abbrev pub status_worth : String → ℕ
status_worth status = if status == "registered" then 50 else if status == "disputed" then 0 else 10

-- The score is what the status is worth, with 12 for each verified document up to 50 in all: the
-- two bounds at the end of the code never bite.
pub compute_trust_score-eq :
    (status : String) (n : ℕ)
    → compute_trust_score (record { status = status; evidence_count = some n })
      ≡ status_worth status + min (12 * n) 50
unfolding compute_trust_score
compute_trust_score-eq status n = elim (string_eq.dec status "registered") [
  | yes e ↦ rw e (ground (arith, registered-ne-disputed))
  | no m ↦ ground arith
]

-- A disputed parcel is never trusted more, and a registered one never less, than any other parcel
-- with as many verified documents.
pub compute_trust_score_ranks :
    (status : String) (n : ℕ)
    → (compute_trust_score (record { status = "disputed"; evidence_count = some n })
        ≤ compute_trust_score (record { status = status; evidence_count = some n }))
      × (compute_trust_score (record { status = status; evidence_count = some n })
          ≤ compute_trust_score (record { status = "registered"; evidence_count = some n }))
compute_trust_score_ranks status n =
    rw
      (
        compute_trust_score-eq "disputed" n,
        compute_trust_score-eq status n,
        compute_trust_score-eq "registered" n,
      )
      (ground (arith, registered-ne-disputed), ground arith)
