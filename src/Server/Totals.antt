-- ===== src/Server/Totals.antt =====
-- The counts of artifacts/api-server/src/routes/dashboard.ts.
use package.text.Mathlib.TextEquality.{eq_iff}
use development_plan.Base.{
  ℕ, ◌+◌, ◌≤◌, String, ◌≡◌, ◌≢◌, sym, Bool, true, List, [], ◌∷◌, count, arith, string_eq,
}
use development_plan.Base.Attempt.{done, >>=-query, >>=-attempt}
use development_plan.Server.Schema.{Parcel}
use development_plan.Server.Database.{Database, IsLawful}
use development_plan.Server.Contract.{Response, json, Runtime, Contract, DashboardStats}
use development_plan.Server.Dashboard.{parcel_status, evidence_status, dashboard_stats}

pending-ne-registered : ◌≢◌ {A = String} "pending" "registered"
pending-ne-registered = ground (arith, eq_iff "pending" "registered")

disputed-ne-registered : ◌≢◌ {A = String} "disputed" "registered"
disputed-ne-registered = ground (arith, eq_iff "disputed" "registered")

disputed-ne-pending : ◌≢◌ {A = String} "disputed" "pending"
disputed-ne-pending = ground (arith, eq_iff "disputed" "pending")

module _ {N : Type 0} where
  one_status :
      (ps : List (Parcel N))
      → count (parcel_status "registered") ps
          + count (parcel_status "pending") ps
          + count (parcel_status "disputed") ps
        ≤ count (λ _. true) ps
  one_status [] = omega arith
  one_status (p ∷ ps) =
      ground
        (arith, one_status ps, pending-ne-registered, disputed-ne-registered, disputed-ne-pending)

module _ {N : Type 0} (rt : Runtime N) (db : Database N) (ct : Contract N) (L : IsLawful db) where
  -- The figures are those of the tables.
  pub record AreCounted (s : db.State) (d : DashboardStats N) : Type 0 where
    pub total : d.total_parcels ≡ count (λ _. true) (db.parcels s)
    pub registered : d.registered_parcels ≡ count (parcel_status "registered") (db.parcels s)
    pub pending : d.pending_parcels ≡ count (parcel_status "pending") (db.parcels s)
    pub disputed : d.disputed_parcels ≡ count (parcel_status "disputed") (db.parcels s)
    pub verified : d.evidence_verified ≡ count (evidence_status "verified") (db.evidence s)
    pub to_review : d.evidence_pending ≡ count (evidence_status "pending_review") (db.evidence s)

  few :
      (total registered pending disputed : ℕ) (s : db.State)
      → total ≡ count (λ _. true) (db.parcels s)
      → registered ≡ count (parcel_status "registered") (db.parcels s)
      → pending ≡ count (parcel_status "pending") (db.parcels s)
      → disputed ≡ count (parcel_status "disputed") (db.parcels s)
      → registered + pending + disputed ≤ total
  few total registered pending disputed s c1 c2 c3 c4 =
      rw (c1, c2, c3, c4) (one_status (db.parcels s))

  -- On a database that meets the SQL assumptions: `GET /dashboard/stats`, if it does not throw,
  -- answers 200 with the counts of the parcels and of the documents by their status, and the
  -- registered, pending and disputed parcels together are no more than all.
  pub dashboard_stats-AreCounted :
      (is_recent : Parcel N → Bool) (s s' : db.State) (r : Response ct.Reply)
      → dashboard_stats rt db ct is_recent s ≡ (done r, s')
      → (d : DashboardStats N) × (body : ct.Reply) × AreCounted s d
        × (d.registered_parcels + d.pending_parcels + d.disputed_parcels ≤ d.total_parcels)
        × (ct.dashboard_response d ≡ done body)
        × (r ≡ json 200 body)
  unfolding dashboard_stats
  dashboard_stats-AreCounted is_recent s s' r e =
      let (total, q1, e1) = >>=-query _ _ s e in
      let (registered, q2, e2) = >>=-query _ _ s e1 in
      let (pending, q3, e3) = >>=-query _ _ s e2 in
      let (disputed, q4, e4) = >>=-query _ _ s e3 in
      let (average, _, e5) = >>=-query _ _ s e4 in
      let (recent, _, e6) = >>=-query _ _ s e5 in
      let (verified, q7, e7) = >>=-query _ _ s e6 in
      let (to_review, q8, e8) = >>=-query _ _ s e7 in
      let (body, answered, e9) = >>=-attempt _ _ s e8 in
      let c1 = L.count_parcels_lem _ s total q1 in
      let c2 = L.count_parcels_lem _ s registered q2 in
      let c3 = L.count_parcels_lem _ s pending q3 in
      let c4 = L.count_parcels_lem _ s disputed q4 in
      (
        _,
        body,
        record {
          total = c1;
          registered = c2;
          pending = c3;
          disputed = c4;
          verified = L.count_evidence_lem _ s verified q7;
          to_review = L.count_evidence_lem _ s to_review q8;
        },
        few total registered pending disputed s c1 c2 c3 c4,
        answered,
        sym (ground arith),
      )
