-- ===== src/Server/Consistency.antt =====
-- The consistency of the tables over the requests of artifacts/api-server.
use development_plan.Base.{◌≡◌, ◌≢◌, ap, subst, some}
use development_plan.Base.Attempt.{Action, done}
use development_plan.Base.Keeps.{Keeps, Anything, state-Keeps}
use development_plan.Server.Database.{Database, IsLawful}
use development_plan.Server.Contract.{
  Runtime, Contract, Response, success, UpdateParcelBody, UpdateEvidenceBody,
}
use development_plan.Server.App.{
  Request, get_health, get_stats, get_parcels, post_parcel, get_one_parcel, patch_parcel,
  delete_one_parcel, get_evidence, post_evidence, patch_evidence, delete_one_evidence, handle,
}
use development_plan.Server.ReadOnly.{
  list_parcels-Keeps, get_parcel-Keeps, list_evidence-Keeps, dashboard_stats-Keeps, health-Keeps,
}
use development_plan.Server.Invariant.{Holds}
use development_plan.Server.Invariant.Registry.{
  create_parcel-Holds, update_parcel-Holds, delete_parcel-Holds,
}
use development_plan.Server.Invariant.Filing.{
  add_evidence-Holds, update_evidence-Holds, delete_evidence-Holds,
}

-- The schemas let no empty status through.
pub record HasStatuses {N : Type 0} (ct : Contract N) : Type 0 where
  pub parcel_stated :
      (j : ct.Json) (d : UpdateParcelBody N)
      → ct.update_parcel_body j ≡ success d
      → d.status ≢ some ""
  pub evidence_stated :
      (j : ct.Json) (d : UpdateEvidenceBody)
      → ct.update_evidence_body j ≡ success d
      → d.status ≢ some ""

reads-keep :
    {S A : Type 0} (P : S → Type 0) {m : Action S A} {a : A} {s s' : S}
    → Keeps P Anything m
    → P s
    → m s ≡ (done a, s')
    → P s'
reads-keep P k p e = subst P (ap (λ r. r.1) e) (state-Keeps k _ p)

module _ {N : Type 0} (rt : Runtime N) (db : Database N) (ct : Contract N) where
  -- The states that requests lead to, one after another and none of them throwing.
  pub data Served (s : db.State) : db.State → Type 0 where
    start : Served s s
    next :
        {t u : db.State} (request : Request N ct.Json) (r : Response ct.Reply)
        → Served s t
        → handle rt db ct request t ≡ (done r, u)
        → Served s u

  module _ (L : IsLawful db) (V : HasStatuses ct) where
    -- On a database that meets the SQL assumptions, and with schemas that let no empty status
    -- through: a request that ends without a throw, whatever it answers, keeps the tables
    -- consistent. The keys stay unique, every document keeps its parcel, and every stored score is
    -- the one that belongs to the parcel's status and its verified documents.
    pub handle-Holds :
        (request : Request N ct.Json) (s s' : db.State) (r : Response ct.Reply)
        → Holds db s
        → handle rt db ct request s ≡ (done r, s')
        → Holds db s'
    unfolding handle
    handle-Holds get_health s s' r k e = reads-keep (Holds db) (health-Keeps rt db ct _) k e
    handle-Holds (get_stats is_recent) s s' r k e =
        reads-keep (Holds db) (dashboard_stats-Keeps rt db ct _ is_recent) k e
    handle-Holds (get_parcels q) s s' r k e =
        reads-keep (Holds db) (list_parcels-Keeps rt db ct _ q) k e
    handle-Holds (post_parcel body year draw) s s' r k e =
        create_parcel-Holds rt db ct L body year draw s s' r k e
    handle-Holds (get_one_parcel id) s s' r k e =
        reads-keep (Holds db) (get_parcel-Keeps rt db ct _ id) k e
    handle-Holds (patch_parcel id body) s s' r k e =
        update_parcel-Holds rt db ct L id body s s' r (V.parcel_stated body) k e
    handle-Holds (delete_one_parcel id) s s' r k e = delete_parcel-Holds rt db ct L id s s' r k e
    handle-Holds (get_evidence id) s s' r k e =
        reads-keep (Holds db) (list_evidence-Keeps rt db ct _ id) k e
    handle-Holds (post_evidence id body) s s' r k e =
        add_evidence-Holds rt db ct L id body s s' r k e
    handle-Holds (patch_evidence id body) s s' r k e =
        update_evidence-Holds rt db ct L id body s s' r (V.evidence_stated body) k e
    handle-Holds (delete_one_evidence id) s s' r k e =
        delete_evidence-Holds rt db ct L id s s' r k e

    -- On a database that meets the SQL assumptions, and with schemas that let no empty status
    -- through: tables that are consistent stay consistent over every history of requests of which
    -- none throws.
    pub Served-Holds : {s t : db.State} → Holds db s → Served s t → Holds db t
    Served-Holds k start = k
    Served-Holds k (next request r h e) = handle-Holds request _ _ r (Served-Holds k h) e
