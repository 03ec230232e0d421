-- ===== src/Server/ParcelRoutes.antt =====
-- artifacts/api-server/src/routes/parcels.ts
use mathlib.Core.Option
use mathlib.Core.Option.{get_or}
use development_plan.Base.{ℕ, ◌+◌, String, ◌<>◌, Bool, true, false, ◌&&◌, ◌||◌, Option, none, some}
use development_plan.Base.{List, [], ◌∷◌, ◌++◌, map, ◌==◌, string_eq, if◌then◌else◌, not}
use development_plan.Base.Attempt.{Action, ◌>>=◌, return, attempt, query, statement}
use development_plan.Server.Schema.{Nullable, Optional, Parcel, ParcelChanges, Evidence}
use development_plan.Server.Database.{Database, belongs_to}
use development_plan.Server.Trust.{compute_trust_score}
use development_plan.Server.Contract.{
  or_bad_request, Response, json, error, send_status, RouteParam, raw_id, Runtime, ParcelQuery,
  UpdateParcelBody, ParcelShape, Contract,
}

-- `value ?? null`
abbrev pub or_null : {A : Type 0} → Optional (Nullable A) → Nullable A
or_null none = none
or_null (some v) = v

-- `if (value)` of an optional string
abbrev pub is_truthy : Optional String → Bool
is_truthy none = false
is_truthy (some s) = not (s == "")

unfoldable pub is_undefined : {A : Type 0} → Optional A → Bool
is_undefined none = true
is_undefined (some _) = false

-- `and(...conditions)`, which is no condition at all where there are none
abbrev pub all_of : {A : Type 0} → List (A → Bool) → A → Bool
all_of [] row = true
all_of (c ∷ cs) row = c row && all_of cs row

abbrev pub not_found : {R : Type 0} → Response R
not_found = error 404 "Parcel not found"

module _ {N : Type 0} (rt : Runtime N) where
  -- `generateTitleNumber`, at a year and at `Math.floor(Math.random() * 900000)`
  unfoldable pub generate_title_number : ℕ → ℕ → String
  generate_title_number year draw =
      let rand = draw + 100000 in
      "LV-NG-" <> rt.integer_to_string year <> "-" <> rt.integer_to_string rand

  unfoldable pub to_parcel_shape : Parcel N → ParcelShape N
  to_parcel_shape p = record {
    row = p;
    area_sqm = rt.to_number p.area_sqm;
    title_number = p.title_number;
    owner_name = p.owner_name;
    owner_phone = p.owner_phone;
    owner_email = p.owner_email;
    location_address = p.location_address;
    parcel_type = p.parcel_type;
    trust_score = p.trust_score;
    latitude = p.latitude;
    longitude = p.longitude;
    created_at = rt.to_iso_string p.created_at;
    updated_at = rt.to_iso_string p.updated_at;
  }

  -- One condition, if its parameter is given and is not empty.
  abbrev condition : Optional String → (String → Parcel N → Bool) → List (Parcel N → Bool)
  condition none test = []
  condition (some s) test = if s == "" then [] else test s ∷ []

  unfoldable pub list_conditions : ParcelQuery → List (Parcel N → Bool)
  list_conditions q =
      condition q.status (λ s p. p.status == s)
      ++ condition q.parcel_type (λ s p. p.parcel_type == s)
      ++ condition q.state (λ s p. p.state == s)
      ++ condition q.search (λ s p.
        let pattern = "%" <> s <> "%" in
        rt.ilike p.title_number pattern
        || (rt.ilike p.owner_name pattern || rt.ilike p.location_address pattern))

  -- The columns of a PATCH: only the fields that are provided. The score is not among them yet.
  unfoldable pub provided_changes : UpdateParcelBody N → ParcelChanges N
  provided_changes d = record {
    owner_name = d.owner_name;
    owner_phone = d.owner_phone;
    owner_email = d.owner_email;
    location_address = d.location_address;
    state = d.state;
    lga = d.lga;
    area_sqm = Option.map rt.number_to_string d.area_sqm;
    parcel_type = d.parcel_type;
    status = d.status;
    trust_score = none;
    latitude = d.latitude;
    longitude = d.longitude;
  }

-- `Object.keys(updates).length === 0`
unfoldable pub has_no_keys : {N : Type 0} → ParcelChanges N → Bool
unfolding is_undefined
has_no_keys c =
    is_undefined c.owner_name
    && (is_undefined c.owner_phone
        && (is_undefined c.owner_email
            && (is_undefined c.location_address
                && (is_undefined c.state
                    && (is_undefined c.lga
                        && (is_undefined c.area_sqm
                            && (is_undefined c.parcel_type
                                && (is_undefined c.status
                                    && (is_undefined c.trust_score
                                        && (is_undefined c.latitude
                                            && is_undefined c.longitude))))))))))

-- The WHERE clause of the count: the parcel's verified evidence.
abbrev pub is_verified_of : String → Evidence → Bool
is_verified_of id e = belongs_to id e && e.status == "verified"

module _ {N : Type 0} (rt : Runtime N) (db : Database N) (ct : Contract N) where
  abbrev Handler : Type 0
  Handler = Action db.State (Response ct.Reply)

  -- GET /parcels
  unfoldable pub list_parcels : ct.Json → Handler
  list_parcels request = or_bad_request (ct.list_parcels_query request) λ q. do
    let where_clause = all_of (list_conditions rt q)
    items ← query (db.select_parcels where_clause (get_or q.limit 50) (get_or q.offset 0))
    total ← query (db.count_parcels where_clause)
    body ← attempt (
        ct.list_parcels_response (record { items = map (to_parcel_shape rt) items; total = total }))
    return (json 200 body)

  -- POST /parcels, with the year and the random draw of the title number
  unfoldable pub create_parcel : ct.Json → ℕ → ℕ → Handler
  create_parcel request year draw = or_bad_request (ct.create_parcel_body request) λ d. do
    parcel ← statement (
        db.insert_parcel (record {
          title_number = generate_title_number rt year draw;
          owner_name = d.owner_name;
          owner_phone = or_null d.owner_phone;
          owner_email = or_null d.owner_email;
          location_address = d.location_address;
          state = d.state;
          lga = d.lga;
          area_sqm = rt.number_to_string d.area_sqm;
          parcel_type = d.parcel_type;
          status = "pending";
          trust_score = 10;
          latitude = or_null d.latitude;
          longitude = or_null d.longitude;
        }))
    body ← attempt (ct.create_parcel_response (to_parcel_shape rt parcel))
    return (json 201 body)

  -- The rest of `GET /parcels/:id`, with the row or without.
  unfoldable pub respond_found : Option (Parcel N) → Handler
  respond_found none = return not_found
  respond_found (some parcel) = do
    body ← attempt (ct.get_parcel_response (to_parcel_shape rt parcel))
    return (json 200 body)

  -- GET /parcels/:id
  unfoldable pub get_parcel : RouteParam → Handler
  get_parcel param = do
    found ← query (db.find_parcel (db.read_uuid (raw_id param)))
    respond_found found

  -- What `PATCH /parcels/:id` answers with the row that it found or updated.
  unfoldable pub respond_updated : Option (Parcel N) → Handler
  respond_updated none = return not_found
  respond_updated (some parcel) = do
    body ← attempt (ct.update_parcel_response (to_parcel_shape rt parcel))
    return (json 200 body)

  -- The score is computed anew when a status is given.
  unfoldable pub rescore :
      String → Optional String → ParcelChanges N → Action db.State (ParcelChanges N)
  rescore id none updates = return updates
  rescore id (some status) updates = if status == "" then return updates else do
    evidence_count ← query (db.count_evidence (is_verified_of id))
    let score =
        compute_trust_score (record { status = status; evidence_count = some evidence_count })
    return (record updates { trust_score = some score })

  unfoldable pub apply_updates : String → UpdateParcelBody N → Handler
  apply_updates id d =
      let provided = provided_changes rt d in
      if has_no_keys provided
      then (do existing ← query (db.find_parcel id); respond_updated existing)
      else do
        updates ← rescore id d.status provided
        updated ← statement (db.update_parcel updates id)
        respond_updated updated

  -- PATCH /parcels/:id
  unfoldable pub update_parcel : RouteParam → ct.Json → Handler
  update_parcel param request = or_bad_request (ct.update_parcel_params (raw_id param)) λ _.
      or_bad_request (ct.update_parcel_body request)
        λ d. apply_updates (db.read_uuid (raw_id param)) d

  -- The rest of `DELETE /parcels/:id`, with the row that was deleted or without.
  unfoldable pub respond_deleted : Option (Parcel N) → Handler
  respond_deleted none = return not_found
  respond_deleted (some _) = return (send_status 204)

  -- DELETE /parcels/:id
  unfoldable pub delete_parcel : RouteParam → Handler
  delete_parcel param = or_bad_request (ct.delete_parcel_params (raw_id param)) λ _. do
    deleted ← statement (db.delete_parcel (db.read_uuid (raw_id param)))
    respond_deleted deleted
