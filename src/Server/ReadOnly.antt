-- ===== src/Server/ReadOnly.antt =====
-- The routes of artifacts/api-server/src/routes that only read.
use development_plan.Base.{Bool, Option, none, some}
use development_plan.Base.Attempt.{Action}
use development_plan.Base.Keeps.{
  Keeps, Anything, return-Keeps, query-Keeps, attempt-Keeps, >>=-Keeps,
}
use development_plan.Server.Schema.{Parcel}
use development_plan.Server.Database.{Database}
use development_plan.Server.Contract.{
  Parsed, success, failure, or_bad_request, Response, RouteParam, Runtime, Contract,
}
use development_plan.Server.ParcelRoutes.{list_parcels, get_parcel, respond_found}
use development_plan.Server.EvidenceRoutes.{list_evidence}
use development_plan.Server.Dashboard.{dashboard_stats}
use development_plan.Server.App.{health}

pub or_bad_request-Keeps :
    {S A R : Type 0} {P : S → Type 0} (p : Parsed A) {k : A → Action S (Response R)}
    → ((a : A) → Keeps P Anything (k a))
    → Keeps P Anything (or_bad_request p k)
unfolding or_bad_request
or_bad_request-Keeps (success a) h = h a
or_bad_request-Keeps (failure message) h = return-Keeps _

module _ {N : Type 0} (rt : Runtime N) (db : Database N) (ct : Contract N)
    (P : db.State → Type 0) where
  pub list_parcels-Keeps : (q : ct.Json) → Keeps P Anything (list_parcels rt db ct q)
  unfolding list_parcels
  list_parcels-Keeps q = or_bad_request-Keeps (ct.list_parcels_query q) λ d.
      >>=-Keeps (query-Keeps _) λ items _.
        >>=-Keeps (query-Keeps _) λ total _. >>=-Keeps (attempt-Keeps _) λ body _. return-Keeps _

  respond_found-Keeps :
      (found : Option (Parcel N)) → Keeps P Anything (respond_found rt db ct found)
  unfolding respond_found
  respond_found-Keeps none = return-Keeps _
  respond_found-Keeps (some p) = >>=-Keeps (attempt-Keeps _) λ body _. return-Keeps _

  pub get_parcel-Keeps : (id : RouteParam) → Keeps P Anything (get_parcel rt db ct id)
  unfolding get_parcel
  get_parcel-Keeps id = >>=-Keeps (query-Keeps _) λ found _. respond_found-Keeps found

  pub list_evidence-Keeps : (id : RouteParam) → Keeps P Anything (list_evidence rt db ct id)
  unfolding list_evidence
  list_evidence-Keeps id =
      or_bad_request-Keeps (ct.list_evidence_params _) λ _.
        >>=-Keeps (query-Keeps _) λ items _. >>=-Keeps (attempt-Keeps _) λ body _. return-Keeps _

  pub dashboard_stats-Keeps :
      (is_recent : Parcel N → Bool) → Keeps P Anything (dashboard_stats rt db ct is_recent)
  unfolding dashboard_stats
  dashboard_stats-Keeps is_recent = >>=-Keeps (query-Keeps _) λ total _.
      >>=-Keeps (query-Keeps _) λ registered _. >>=-Keeps (query-Keeps _) λ pending _.
        >>=-Keeps (query-Keeps _) λ disputed _. >>=-Keeps (query-Keeps _) λ average _.
          >>=-Keeps (query-Keeps _) λ recent _. >>=-Keeps (query-Keeps _) λ verified _.
            >>=-Keeps (query-Keeps _)
              λ to_review _. >>=-Keeps (attempt-Keeps _) λ body _. return-Keeps _

  pub health-Keeps : Keeps P Anything (health rt db ct)
  unfolding health
  health-Keeps = >>=-Keeps (attempt-Keeps _) λ body _. return-Keeps _
