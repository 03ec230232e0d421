-- ===== src/Tests/LookupRuns.antt =====
-- What requests at the registry answer, change and leave alone.
use development_plan.Base.{ℕ, String, ◌≡◌, refl, none, some, [], string_eq}
use development_plan.Base.Attempt.{done, ◌>>=◌, query, statement, attempt}
use development_plan.Server.Schema.{Parcel}
use development_plan.Server.Contract.{json, one, or_bad_request}
use development_plan.Server.Database.Memory.{Tables, memory, memory-IsLawful}
use development_plan.Server.Trust.{compute_trust_score}
use development_plan.Server.ParcelRoutes.{
  has_no_keys, provided_changes, update_parcel, apply_updates, rescore, respond_updated,
  to_parcel_shape,
}
use text.Mathlib.TextEquality.{eq_iff}
use development_plan.Base.{arith, ◌≢◌, ◌⊎◌, find, keep}
use development_plan.Server.Contract.{error, send_status}
use development_plan.Server.Database.{has_id, belongs_to}
use development_plan.Server.ParcelRoutes.{
  get_parcel, respond_found, delete_parcel, respond_deleted, not_found,
}
use development_plan.Base.{true, ◌+◌, ◌≤◌}
use development_plan.Server.Contract.{DashboardStats}
use development_plan.Server.Dashboard.{dashboard_stats}
use development_plan.Server.Totals.{AreCounted, dashboard_stats-AreCounted}
use development_plan.Tests.Samples.{stats}
use development_plan.Server.Patches.{Patches, update_parcel-Patches}
use development_plan.Server.Rejections.{handle-rejects}
use development_plan.Server.Rejections.Answers.{HasSameRows}
use development_plan.Server.Lookups.{get_parcel-finds, delete_parcel-removes}
use development_plan.Server.App.{patch_evidence}
use development_plan.Tests.Samples.{runtime, contract, reviews, updates, Sent, parcel}
use development_plan.Tests.History.{
  review, registration, serve, row, with_deed, with_review, registered,
}

refused :
    serve (patch_evidence (one "no id") (reviews review)) with_deed
    ≡ (done (error 404 "Evidence not found"), with_deed)
unfolding serve
refused = refl

handle-rejects_example : HasSameRows memory with_deed with_deed
unfolding serve
handle-rejects_example =
    handle-rejects runtime memory contract memory-IsLawful
      (patch_evidence (one "no id") (reviews review)) with_deed with_deed 404 "Evidence not found"
      refused

got_parcel :
    get_parcel runtime memory contract (one "ID") with_deed
    ≡ (done (json 200 (parcel (to_parcel_shape runtime (row "pending" 10 0)))), with_deed)
unfolding get_parcel respond_found ◌>>=◌ query attempt string_eq
got_parcel = refl

get_parcel-finds_example :
    ((find (has_id "id") with_deed.parcels ≡ none)
      × (json 200 (parcel (to_parcel_shape runtime (row "pending" 10 0))) ≡ not_found))
    ⊎ ((p : Parcel ℕ) × (body : Sent) × (find (has_id "id") with_deed.parcels ≡ some p)
        × (done (parcel (to_parcel_shape runtime p)) ≡ done body)
        × (json 200 (parcel (to_parcel_shape runtime (row "pending" 10 0))) ≡ json 200 body))
unfolding string_eq
get_parcel-finds_example =
    get_parcel-finds runtime memory contract memory-IsLawful (one "ID") with_deed with_deed
      (json 200 (parcel (to_parcel_shape runtime (row "pending" 10 0)))) got_parcel

other_id : ◌≢◌ {A = String} "id'" "id"
other_id = ground (arith, eq_iff "id'" "id")

abbrev emptied : Tables
emptied = record { parcels = []; evidence = []; ticks = 2 }

deleted_parcel :
    delete_parcel runtime memory contract (one "ID") with_deed ≡ (done (send_status 204), emptied)
unfolding delete_parcel respond_deleted or_bad_request ◌>>=◌ statement string_eq
deleted_parcel = refl

delete_parcel-removes_example :
    (find (has_id "id") emptied.parcels ≡ none)
    × (find (belongs_to "id") emptied.evidence ≡ none)
    × (find (has_id "id'") emptied.parcels ≡ find (has_id "id'") with_deed.parcels)
    × (keep (belongs_to "id'") emptied.evidence ≡ keep (belongs_to "id'") with_deed.evidence)
unfolding string_eq
delete_parcel-removes_example =
    delete_parcel-removes runtime memory contract memory-IsLawful (one "ID") "id'" with_deed emptied
      other_id deleted_parcel

patched_parcel :
    update_parcel runtime memory contract (one "id") (updates registration) with_review
    ≡ (done (json 200 (parcel (to_parcel_shape runtime (row "registered" 62 3)))), registered)
unfolding update_parcel apply_updates rescore respond_updated provided_changes has_no_keys
    or_bad_request compute_trust_score ◌>>=◌ query statement attempt string_eq to_parcel_shape
patched_parcel = refl

update_parcel-Patches_example :
    Patches runtime memory contract memory-IsLawful "id" "id'" registration
      (row "pending" 22 2)
      with_review
      registered
unfolding string_eq
update_parcel-Patches_example =
    update_parcel-Patches runtime memory contract memory-IsLawful (one "id") (updates registration)
      registration "id'" (row "pending" 22 2) with_review registered
      (json 200 (parcel (to_parcel_shape runtime (row "registered" 62 3)))) refl refl other_id refl
      patched_parcel

abbrev figures : DashboardStats ℕ
figures = record {
  total_parcels = 1;
  registered_parcels = 1;
  pending_parcels = 0;
  disputed_parcels = 0;
  avg_trust_score = 62;
  registrations_last_7_days = 1;
  evidence_verified = 1;
  evidence_pending = 0;
}

dashboard_run :
    dashboard_stats runtime memory contract (λ _. true) registered
    ≡ (done (json 200 (stats figures)), registered)
unfolding dashboard_stats ◌>>=◌ query attempt string_eq
dashboard_run = refl

dashboard_stats-AreCounted_example :
    (d : DashboardStats ℕ) × (body : Sent) × AreCounted runtime memory contract memory-IsLawful
      registered d
    × (d.registered_parcels + d.pending_parcels + d.disputed_parcels ≤ d.total_parcels)
    × (done (stats d) ≡ done body)
    × (json 200 (stats figures) ≡ json 200 body)
dashboard_stats-AreCounted_example =
    dashboard_stats-AreCounted runtime memory contract memory-IsLawful (λ _. true) registered
      registered (json 200 (stats figures)) dashboard_run
