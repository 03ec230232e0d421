-- ===== src/Tests/ServerRuns.antt =====
-- The consistency of the tables at the registry's requests.
use development_plan.Base.{◌≡◌, refl, [], ◌∷◌, string_eq}
use development_plan.Base.Attempt.{done, ◌>>=◌, query, statement}
use development_plan.Server.Contract.{json, one}
use development_plan.Server.Database.Memory.{Tables, empty_tables, memory, memory-IsLawful}
use development_plan.Server.Trust.{recalculated_score}
use development_plan.Server.ParcelRoutes.{to_parcel_shape}
use development_plan.Server.EvidenceRoutes.{recalc_trust_score, rescore_found, write_score}
use development_plan.Server.Invariant.{Holds}
use development_plan.Server.Invariant.Recalc.{recalc_trust_score-Holds}
use development_plan.Server.App.{post_parcel, post_evidence, patch_evidence, patch_parcel}
use development_plan.Server.Consistency.{handle-Holds, Served, start, next, Served-Holds}
use development_plan.Tests.Samples.{
  runtime, contract, contract-HasStatuses, creates, files, reviews, updates, parcel,
}
use development_plan.Tests.History.{
  application, deed, review, registration, serve, row, document_row, with_review, registered,
  posted_parcel, posted_evidence, reviewed_evidence, registered_parcel,
}

empty-Holds : Holds memory empty_tables
empty-Holds = record {
  intact = record { parcel_keys = tt; evidence_keys = tt; owned = tt };
  scored = tt;
}

reviewed-Served : Served runtime memory contract empty_tables with_review
unfolding serve
reviewed-Served =
    next (patch_evidence (one "id'") (reviews review)) _
      (next (post_evidence (one "id") (files deed)) _
        (next (post_parcel (creates application) 2026 7) _ start posted_parcel) posted_evidence)
      reviewed_evidence

Served-Holds_example : Holds memory with_review
Served-Holds_example =
    Served-Holds runtime memory contract memory-IsLawful contract-HasStatuses empty-Holds
      reviewed-Served

handle-Holds_example : Holds memory registered
unfolding serve
handle-Holds_example =
    handle-Holds runtime memory contract memory-IsLawful contract-HasStatuses
      (patch_parcel (one "id") (updates registration)) with_review registered
      (json 200 (parcel (to_parcel_shape runtime (row "registered" 62 3)))) Served-Holds_example
      registered_parcel

-- The document is verified and the score is not yet written.
abbrev stale : Tables
stale = record {
  parcels = row "pending" 10 0 ∷ [];
  evidence = document_row "verified" ∷ [];
  ticks = 2;
}

recalculated : recalc_trust_score runtime memory contract "id" stale ≡ (done tt, with_review)
unfolding recalc_trust_score rescore_found write_score recalculated_score ◌>>=◌ query statement
    string_eq
recalculated = refl

recalc_trust_score-Holds_example : Holds memory with_review
unfolding string_eq
recalc_trust_score-Holds_example =
    recalc_trust_score-Holds runtime memory contract memory-IsLawful "id" stale with_review
      (record { parcel_keys = (refl, tt); evidence_keys = (refl, tt); owned = (λ e. cc, tt) })
      (λ differs. absurd (differs refl), tt) recalculated
