-- ===== src/Server/Dashboard.antt =====
-- artifacts/api-server/src/routes/dashboard.ts
use development_plan.Base.{String, Bool, true, ◌==◌, string_eq}
use development_plan.Base.Attempt.{Action, ◌>>=◌, return, attempt, query}
use development_plan.Server.Schema.{Parcel, Evidence}
use development_plan.Server.Database.{Database}
use development_plan.Server.Contract.{Response, json, Runtime, Contract}

abbrev pub parcel_status : {N : Type 0} → String → Parcel N → Bool
parcel_status status p = p.status == status

abbrev pub evidence_status : String → Evidence → Bool
evidence_status status e = e.status == status

module _ {N : Type 0} (rt : Runtime N) (db : Database N) (ct : Contract N) where
  -- GET /dashboard/stats, with the test `created_at >= now() - interval '7 days'`
  unfoldable pub dashboard_stats : (Parcel N → Bool) → Action db.State (Response ct.Reply)
  dashboard_stats is_recent = do
    total ← query (db.count_parcels (λ _. true))
    registered ← query (db.count_parcels (parcel_status "registered"))
    pending ← query (db.count_parcels (parcel_status "pending"))
    disputed ← query (db.count_parcels (parcel_status "disputed"))
    average ← query db.average_trust
    recent ← query (db.count_parcels is_recent)
    verified ← query (db.count_evidence (evidence_status "verified"))
    to_review ← query (db.count_evidence (evidence_status "pending_review"))
    body ← attempt (
        ct.dashboard_response (record {
          total_parcels = total;
          registered_parcels = registered;
          pending_parcels = pending;
          disputed_parcels = disputed;
          avg_trust_score = rt.round average;
          registrations_last_7_days = recent;
          evidence_verified = verified;
          evidence_pending = to_review;
        }))
    return (json 200 body)
