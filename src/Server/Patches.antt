-- ===== src/Server/Patches.antt =====
-- PATCH of a parcel (artifacts/api-server/src/routes/parcels.ts), and the rows before and after it.
use mathlib.Core.Option
use development_plan.Base.{
  ℕ, String, ◌≡◌, refl, sym, ap, ◌∙◌, ◌≢◌, Bool, true, none, some, Option, List, [], ◌∷◌, map, find,
  subst, arith, string_eq, ◌==◌, inl, inr, Bool-cases, ◌&&◌,
}
use development_plan.Base.Attempt.{done, >>=-query, >>=-statement, >>=-done, return-done}
use development_plan.Base.RowLaws
use development_plan.Server.Schema.{
  Parcel, ParcelChanges, Optional, assign, change_parcel, stored_changes,
}
use development_plan.Server.Database.{Database, IsLawful, parcel_key, has_id, changed_parcel}
use development_plan.Server.Contract.{
  Runtime, Contract, Response, RouteParam, raw_id, success, or_bad_request, UpdateParcelBody,
}
use development_plan.Server.ParcelRoutes.{
  update_parcel, apply_updates, rescore, provided_changes, has_no_keys, is_undefined,
}
use development_plan.Server.Invariant.Steps.{changed_parcel-id}
use development_plan.Server.Invariant.Registry.{respond_updated-same}

module _ {N : Type 0} (rt : Runtime N) (read_numeric : String → String) where
  -- A row after a PATCH: the fields that the body provides, and the others as they were.
  pub record IsPatched (d : UpdateParcelBody N) (old new : Parcel N) : Type 0 where
    pub id : new.id ≡ old.id
    pub title_number : new.title_number ≡ old.title_number
    pub owner_name : new.owner_name ≡ assign d.owner_name old.owner_name
    pub owner_phone : new.owner_phone ≡ assign d.owner_phone old.owner_phone
    pub owner_email : new.owner_email ≡ assign d.owner_email old.owner_email
    pub location_address : new.location_address ≡ assign d.location_address old.location_address
    pub state : new.state ≡ assign d.state old.state
    pub lga : new.lga ≡ assign d.lga old.lga
    pub area_sqm :
        new.area_sqm
        ≡ assign (Option.map (λ a. read_numeric (rt.number_to_string a)) d.area_sqm) old.area_sqm
    pub parcel_type : new.parcel_type ≡ assign d.parcel_type old.parcel_type
    pub status : new.status ≡ assign d.status old.status
    pub latitude : new.latitude ≡ assign d.latitude old.latitude
    pub longitude : new.longitude ≡ assign d.longitude old.longitude
    pub created_at : new.created_at ≡ old.created_at

  is_undefined-none :
      {A : Type 0} (a : Optional A) (old : A) → is_undefined a ≡ true → old ≡ assign a old
  unfolding is_undefined
  is_undefined-none none old e = refl
  is_undefined-none (some v) old e = cc

  map-map :
      {A B C : Type 0} (f : B → C) (g : A → B) (a : Optional A)
      → Option.map f (Option.map g a) ≡ Option.map (λ x. f (g x)) a
  map-map f g none = refl
  map-map f g (some v) = refl

  is_undefined-map :
      {A B C : Type 0} (f : B → C) (g : A → B) (a : Optional A) (old : C)
      → is_undefined (Option.map g a) ≡ true
      → old ≡ assign (Option.map (λ x. f (g x)) a) old
  unfolding is_undefined
  is_undefined-map f g none old e = refl
  is_undefined-map f g (some v) old e = cc

  both : {a b : Bool} → (a && b) ≡ true → (a ≡ true) × (b ≡ true)
  both e = ground arith

  unchanged-IsPatched :
      (d : UpdateParcelBody N) (old : Parcel N)
      → has_no_keys (provided_changes rt d) ≡ true
      → IsPatched d old old
  unfolding has_no_keys provided_changes
  unchanged-IsPatched d old e =
      let (e1, f1) = both e in
      let (e2, f2) = both f1 in
      let (e3, f3) = both f2 in
      let (e4, f4) = both f3 in
      let (e5, f5) = both f4 in
      let (e6, f6) = both f5 in
      let (e7, f7) = both f6 in
      let (e8, f8) = both f7 in
      let (e9, f9) = both f8 in
      let (e11, e12) = both {a = is_undefined d.latitude} f9 in
      record {
        id = refl;
        title_number = refl;
        owner_name = is_undefined-none d.owner_name _ e1;
        owner_phone = is_undefined-none d.owner_phone _ e2;
        owner_email = is_undefined-none d.owner_email _ e3;
        location_address = is_undefined-none d.location_address _ e4;
        state = is_undefined-none d.state _ e5;
        lga = is_undefined-none d.lga _ e6;
        area_sqm = is_undefined-map read_numeric rt.number_to_string d.area_sqm _ e7;
        parcel_type = is_undefined-none d.parcel_type _ e8;
        status = is_undefined-none d.status _ e9;
        latitude = is_undefined-none d.latitude _ e11;
        longitude = is_undefined-none d.longitude _ e12;
        created_at = refl;
      }

  changed-IsPatched :
      (d : UpdateParcelBody N) (score : Optional ℕ) (time : ℕ) (old : Parcel N)
      → IsPatched d old (
          change_parcel
            (stored_changes read_numeric (record (provided_changes rt d) { trust_score = score }))
            time
            old)
  unfolding provided_changes
  changed-IsPatched d score time old = record {
    id = refl;
    title_number = refl;
    owner_name = refl;
    owner_phone = refl;
    owner_email = refl;
    location_address = refl;
    state = refl;
    lga = refl;
    area_sqm =
        ap (λ a. assign a old.area_sqm) (map-map read_numeric rt.number_to_string d.area_sqm);
    parcel_type = refl;
    status = refl;
    latitude = refl;
    longitude = refl;
    created_at = refl;
  }

module _ {N : Type 0} where
  find-changed :
      (c : ParcelChanges N) (id : String) (time : ℕ) (old : Parcel N) (ps : List (Parcel N))
      → find (has_id id) ps ≡ some old
      → find (has_id id) (map (changed_parcel c id time) ps) ≡ some (change_parcel c time old)
  find-changed c id time old ps e =
      let here = RowLaws.find-passes (has_id id) ps old e in
      RowLaws.find-map parcel_key (changed_parcel c id time) (changed_parcel-id c id time) id ps
      ∙ rw (e, here) refl

  find-others :
      (c : ParcelChanges N) (id other : String) (time : ℕ) (ps : List (Parcel N))
      → other ≢ id
      → find (has_id other) (map (changed_parcel c id time) ps) ≡ find (has_id other) ps
  find-others c id other time [] n = refl
  find-others c id other time (p ∷ ps) n = ground (arith, find-others c id other time ps n)

module _ {N : Type 0} (rt : Runtime N) (db : Database N) (ct : Contract N) (L : IsLawful db) where
  rescore-fields :
      (id : String) (status : Optional String) (c c' : ParcelChanges N) (s s' : db.State)
      → rescore rt db ct id status c s ≡ (done c', s')
      → (s ≡ s') × (score : Optional ℕ) × (record c { trust_score = score } ≡ c')
  unfolding rescore
  rescore-fields id none c c' s s' e =
      let (same, stays) = return-done c s e in (stays, c.trust_score, same)
  rescore-fields id (some status) c c' s s' e = elim (Bool-cases (status == "")) [
    | inl empty ↦
        let (same, stays) = return-done c s (rw empty at e) in (stays, c.trust_score, same)
    | inr given ↦
        let (n, _, e1) = >>=-query _ _ s (rw given at e) in
        let (same, stays) = return-done _ s e1 in (stays, _, same)
  ]

  -- The row with the id is patched, every other row and all documents stay.
  abbrev pub Patches :
      String → String → UpdateParcelBody N → Parcel N → db.State → db.State → Type 0
  Patches id other d old s s' =
      ((new : Parcel N) × (find (has_id id) (db.parcels s') ≡ some new)
        × IsPatched rt db.read_numeric d old new)
      × (find (has_id other) (db.parcels s') ≡ find (has_id other) (db.parcels s))
      × (db.evidence s' ≡ db.evidence s)

  written-Patches :
      (id other : String) (d : UpdateParcelBody N) (score : Optional ℕ) (old : Parcel N)
      (found : Option (Parcel N)) (s s' : db.State)
      → other ≢ id
      → find (has_id id) (db.parcels s) ≡ some old
      → db.update_parcel (record (provided_changes rt d) { trust_score = score }) id s
        ≡ done (found, s')
      → Patches id other d old s s'
  written-Patches id other d score old found s s' n there w =
      let given = record (provided_changes rt d) { trust_score = score } in
      let c = stored_changes db.read_numeric given in
      let (time, rows, _, same) = L.update_parcel_lem given id s found s' w in
      (
        (
          change_parcel c time old,
          ap (find (has_id id)) rows ∙ find-changed c id time old (db.parcels s) there,
          changed-IsPatched rt db.read_numeric d score time old,
        ),
        ap (find (has_id other)) rows ∙ find-others c id other time (db.parcels s) n,
        same,
      )

  apply_updates-Patches :
      (id other : String) (d : UpdateParcelBody N) (old : Parcel N) (s s' : db.State)
      (r : Response ct.Reply)
      → other ≢ id
      → find (has_id id) (db.parcels s) ≡ some old
      → apply_updates rt db ct id d s ≡ (done r, s')
      → Patches id other d old s s'
  unfolding apply_updates
  apply_updates-Patches id other d old s s' r n there e =
      elim (Bool-cases (has_no_keys (provided_changes rt d))) [
        | inl empty ↦
            let (found, _, e1) = >>=-query _ _ s (rw empty at e) in
            subst (Patches id other d old s) (respond_updated-same rt db ct L found s s' r e1)
              ((old, there, unchanged-IsPatched rt db.read_numeric d old empty), refl, refl)
        | inr given ↦
            let (c, s1, scored, e1) = >>=-done _ _ s (rw given at e) in
            let (stays, score, set) = rescore-fields id d.status _ c s s1 scored in
            let (found, s2, written, e2) = >>=-statement _ _ s1 e1 in
            let here =
              subst (λ t. db.update_parcel c id t ≡ done (found, s2)) (sym stays) written in
            subst (Patches id other d old s) (respond_updated-same rt db ct L found s2 s' r e2) (
              written-Patches id other d score old found s s2 n there
                (subst (λ x. db.update_parcel x id s ≡ done (found, s2)) (sym set) here))
      ]

  -- On a database that meets the SQL assumptions, and with an id and a body that the schemas
  -- accept: a `PATCH /parcels/:id` of a row that is there under the id as which the uuid column reads
  -- the path's, if it does not throw, gives the row the fields that the body provides, the area as the
  -- numeric column reads it, and leaves its other fields, but for the score and the time of the
  -- change; every other row and all documents are as they were.
  pub update_parcel-Patches :
      (param : RouteParam) (request : ct.Json) (d : UpdateParcelBody N) (other : String)
      (old : Parcel N) (s s' : db.State) (r : Response ct.Reply)
      → ct.update_parcel_params (raw_id param) ≡ success tt
      → ct.update_parcel_body request ≡ success d
      → other ≢ db.read_uuid (raw_id param)
      → find (has_id (db.read_uuid (raw_id param))) (db.parcels s) ≡ some old
      → update_parcel rt db ct param request s ≡ (done r, s')
      → Patches (db.read_uuid (raw_id param)) other d old s s'
  unfolding update_parcel or_bad_request
  update_parcel-Patches param request d other old s s' r valid parsed n there e =
      apply_updates-Patches (db.read_uuid (raw_id param)) other d old s s' r n there
        (rw (valid, parsed) at e)
