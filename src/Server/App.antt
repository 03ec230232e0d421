-- ===== src/Server/App.antt =====
-- artifacts/api-server/src/routes/index.ts and health.ts: the whole server, as one function of a
-- request. Express has matched the path and parsed the body before.
use development_plan.Base.{ℕ, Bool}
use development_plan.Base.Attempt.{Action, ◌>>=◌, return, attempt}
use development_plan.Server.Schema.{Parcel}
use development_plan.Server.Database.{Database}
use development_plan.Server.Contract.{Response, json, RouteParam, Runtime, Contract}
use development_plan.Server.ParcelRoutes.{
  list_parcels, create_parcel, get_parcel, update_parcel, delete_parcel,
}
use development_plan.Server.EvidenceRoutes.{
  list_evidence, add_evidence, update_evidence, delete_evidence,
}
use development_plan.Server.Dashboard.{dashboard_stats}

-- A request, with what the handler reads of the clock and of the random numbers.
pub data Request (N J : Type 0) : Type 0 where
  get_health : Request N J
  get_stats : (is_recent : Parcel N → Bool) → Request N J
  get_parcels : (query : J) → Request N J
  post_parcel : (body : J) (year draw : ℕ) → Request N J
  get_one_parcel : (id : RouteParam) → Request N J
  patch_parcel : (id : RouteParam) (body : J) → Request N J
  delete_one_parcel : (id : RouteParam) → Request N J
  get_evidence : (id : RouteParam) → Request N J
  post_evidence : (id : RouteParam) (body : J) → Request N J
  patch_evidence : (evidence_id : RouteParam) (body : J) → Request N J
  delete_one_evidence : (evidence_id : RouteParam) → Request N J

module _ {N : Type 0} (rt : Runtime N) (db : Database N) (ct : Contract N) where
  -- GET /healthz
  unfoldable pub health : Action db.State (Response ct.Reply)
  health = do body ← attempt (ct.health_check_response "ok"); return (json 200 body)

  unfoldable pub handle : Request N ct.Json → Action db.State (Response ct.Reply)
  handle get_health = health
  handle (get_stats is_recent) = dashboard_stats rt db ct is_recent
  handle (get_parcels query) = list_parcels rt db ct query
  handle (post_parcel body year draw) = create_parcel rt db ct body year draw
  handle (get_one_parcel id) = get_parcel rt db ct id
  handle (patch_parcel id body) = update_parcel rt db ct id body
  handle (delete_one_parcel id) = delete_parcel rt db ct id
  handle (get_evidence id) = list_evidence rt db ct id
  handle (post_evidence id body) = add_evidence rt db ct id body
  handle (patch_evidence evidence_id body) = update_evidence rt db ct evidence_id body
  handle (delete_one_evidence evidence_id) = delete_evidence rt db ct evidence_id
