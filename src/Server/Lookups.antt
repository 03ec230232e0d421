-- ===== src/Server/Lookups.antt =====
-- POST, GET and DELETE of a parcel (artifacts/api-server/src/routes/parcels.ts), and the rows that
-- are there afterwards.
use development_plan.Base.{
  ℕ, String, ◌≡◌, refl, sym, ◌≢◌, ◌⊎◌, inl, inr, Bool, true, not, none, some, Option, List, [], ◌∷◌,
  keep, find, subst, arith, string_eq, All,
}
use development_plan.Base.Attempt.{Action, done, >>=-query, >>=-statement, >>=-attempt}
use development_plan.Base.RowLaws
use development_plan.Server.Schema.{Parcel, Evidence}
use development_plan.Server.Database.{Database, IsLawful, parcel_key, has_id, belongs_to}
use development_plan.Server.Contract.{
  Runtime, Contract, Response, json, error, send_status, RouteParam, raw_id, Parsed, success,
  failure, or_bad_request, CreateParcelBody,
}
use development_plan.Server.ParcelRoutes.{
  or_null, to_parcel_shape, generate_title_number, get_parcel, respond_found, delete_parcel,
  respond_deleted, not_found,
}
use development_plan.Server.Invariant.Registry.{respond_deleted-same}

find-keep-none :
    {A : Type 0} (test : A → Bool) (xs : List A) → find test (keep (λ x. not (test x)) xs) ≡ none
find-keep-none test [] = refl
find-keep-none test (x ∷ xs) = ground (arith, find-keep-none test xs)

others-keep :
    (id other : String) (es : List Evidence)
    → other ≢ id
    → keep (belongs_to other) (keep (λ e. not (belongs_to id e)) es) ≡ keep (belongs_to other) es
others-keep id other [] n = refl
others-keep id other (e ∷ es) n = ground (arith, others-keep id other es n)

others-pass :
    {N : Type 0} (id other : String) (ps : List (Parcel N))
    → other ≢ id
    → All (λ p. parcel_key p ≡ other → not (has_id id p) ≡ true) ps
others-pass id other [] n = tt
others-pass id other (p ∷ ps) n = (λ named. ground arith, others-pass id other ps n)

-- A route that answers has either refused its input or used it.
pub or_bad_request-done :
    {S A R : Type 0} (p : Parsed A) (k : A → Action S (Response R)) (s s' : S) (r : Response R)
    → or_bad_request p k s ≡ (done r, s')
    → ((message : String) × (r ≡ error 400 message))
      ⊎ ((d : A) × (p ≡ success d) × (k d s ≡ (done r, s')))
unfolding or_bad_request
or_bad_request-done (failure message) k s s' r e = inl (message, ground arith)
or_bad_request-done (success d) k s s' r e = inr (d, refl, e)

module _ {N : Type 0} (rt : Runtime N) (read_numeric : String → String) where
  -- The row is what an application asks for: pending, with a score of 10 and a new title number.
  pub record IsApplication (d : CreateParcelBody N) (year draw : ℕ) (p : Parcel N) : Type 0 where
    pub title_number : p.title_number ≡ generate_title_number rt year draw
    pub owner_name : p.owner_name ≡ d.owner_name
    pub owner_phone : p.owner_phone ≡ or_null d.owner_phone
    pub owner_email : p.owner_email ≡ or_null d.owner_email
    pub location_address : p.location_address ≡ d.location_address
    pub state : p.state ≡ d.state
    pub lga : p.lga ≡ d.lga
    pub area_sqm : p.area_sqm ≡ read_numeric (rt.number_to_string d.area_sqm)
    pub parcel_type : p.parcel_type ≡ d.parcel_type
    pub status : p.status ≡ "pending"
    pub trust_score : p.trust_score ≡ 10

module _ {N : Type 0} (rt : Runtime N) (db : Database N) (ct : Contract N) (L : IsLawful db) where
  -- On a database that meets the SQL assumptions: `GET /parcels/:id`, if it does not throw, answers
  -- 404 where no row has the id as which the uuid column reads the path's, and else 200 with the row
  -- that has it.
  pub get_parcel-finds :
      (param : RouteParam) (s s' : db.State) (r : Response ct.Reply)
      → get_parcel rt db ct param s ≡ (done r, s')
      → ((find (has_id (db.read_uuid (raw_id param))) (db.parcels s) ≡ none) × (r ≡ not_found))
        ⊎ ((p : Parcel N) × (body : ct.Reply) × (find
                (has_id (db.read_uuid (raw_id param)))
                (db.parcels s)
              ≡ some p)
            × (ct.get_parcel_response (to_parcel_shape rt p) ≡ done body)
            × (r ≡ json 200 body))
  unfolding get_parcel respond_found
  get_parcel-finds param s s' r e =
      let (found, asked, e1) = >>=-query _ _ s e in
      go found (L.find_parcel_lem (db.read_uuid (raw_id param)) s found asked) e1
    where
      go :
          (found : Option (Parcel N))
          → found ≡ find (has_id (db.read_uuid (raw_id param))) (db.parcels s)
          → respond_found rt db ct found s ≡ (done r, s')
          → ((find (has_id (db.read_uuid (raw_id param))) (db.parcels s) ≡ none) × (r ≡ not_found))
            ⊎ ((p : Parcel N) × (body : ct.Reply) × (find
                    (has_id (db.read_uuid (raw_id param)))
                    (db.parcels s)
                  ≡ some p)
                × (ct.get_parcel_response (to_parcel_shape rt p) ≡ done body)
                × (r ≡ json 200 body))
      go none is e1 = inl (sym is, ground arith)
      go (some p) is e1 =
          let (body, answered, e2) = >>=-attempt _ _ s e1 in
          inr (p, body, sym is, answered, ground arith)

  abbrev IsRemoved : String → String → db.State → db.State → Type 0
  IsRemoved id other s s' =
      (find (has_id id) (db.parcels s') ≡ none)
      × (find (belongs_to id) (db.evidence s') ≡ none)
      × (find (has_id other) (db.parcels s') ≡ find (has_id other) (db.parcels s))
      × (keep (belongs_to other) (db.evidence s') ≡ keep (belongs_to other) (db.evidence s))

  removed :
      (id other : String) (found : Option (Parcel N)) (s s1 s' : db.State)
      → other ≢ id
      → db.delete_parcel id s ≡ done (found, s1)
      → respond_deleted rt db ct found s1 ≡ (done (send_status 204), s')
      → IsRemoved id other s s1
  unfolding respond_deleted
  removed id other none s s1 s' n w e = absurd (cc)
  removed id other (some p) s s1 s' n w e =
      let (_, rows, same) = L.delete_parcel_lem id s (some p) s1 w in
      (
        rw rows (find-keep-none (has_id id) (db.parcels s)),
        rw same (find-keep-none (belongs_to id) (db.evidence s)),
        rw rows (
            RowLaws.find-keep parcel_key other (λ p. not (has_id id p)) (db.parcels s)
              (others-pass id other (db.parcels s) n)),
        rw same (others-keep id other (db.evidence s) n),
      )

  -- On a database that meets the SQL assumptions: after a `DELETE /parcels/:id` that answers 204,
  -- no row has the id as which the uuid column reads the path's, and no document belongs to it, and
  -- for every other id the row and the documents are as they were.
  pub delete_parcel-removes :
      (param : RouteParam) (other : String) (s s' : db.State)
      → other ≢ db.read_uuid (raw_id param)
      → delete_parcel rt db ct param s ≡ (done (send_status 204), s')
      → (find (has_id (db.read_uuid (raw_id param))) (db.parcels s') ≡ none)
        × (find (belongs_to (db.read_uuid (raw_id param))) (db.evidence s') ≡ none)
        × (find (has_id other) (db.parcels s') ≡ find (has_id other) (db.parcels s))
        × (keep (belongs_to other) (db.evidence s') ≡ keep (belongs_to other) (db.evidence s))
  unfolding delete_parcel
  delete_parcel-removes param other s s' n e =
      elim (or_bad_request-done (ct.delete_parcel_params (raw_id param)) _ s s' _ e) [
        | inl (message, refused) ↦ absurd (cc)
        | inr (_, _, e1) ↦
            let (found, s1, deleted, e2) = >>=-statement _ _ s e1 in
            subst (λ t. IsRemoved (db.read_uuid (raw_id param)) other s t)
              (respond_deleted-same rt db ct L found s1 s' _ e2)
              (removed (db.read_uuid (raw_id param)) other found s s1 s' n deleted e2)
      ]
