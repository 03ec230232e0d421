-- ===== src/Server/Database.antt =====
-- The database behind drizzle (`db` of lib/db/src/index.ts), which is no code of this repository:
-- the statements that the server sends, and what SQL and the schema promise of them.
pub mod Memory
use development_plan.Base.{ℕ, String, Bool, ◌≡◌, Option, none, some, List, ◌∷◌, map}
use development_plan.Base.{keep, count, find, at, ◌==◌, string_eq, not, if◌then◌else◌}
use development_plan.Base.Attempt.{Attempt, done}
use development_plan.Server.Schema.{
  Parcel, NewParcel, stored_parcel, new_parcel, ParcelChanges, stored_changes, change_parcel,
}
use development_plan.Server.Schema.{
  Evidence, NewEvidence, new_evidence, EvidenceChanges, change_evidence,
}

-- An id is a uuid in the form in which the database gives it. `read_uuid` is what a uuid column
-- makes of a text that is compared with it or stored in it, and `read_numeric` what `area_sqm`, a
-- numeric(12, 2), holds of a text that is stored in it; a text that they refuse is left as it is,
-- and the statement with it fails. A WHERE clause is the test that it makes of a row. `threw` is a
-- statement that failed and changed nothing. `parcels` and `evidence` list the rows of a table in
-- an order that no query shows.
pub record Database (N : Type 0) : Type 1 where
  pub State : Type 0
  pub parcels : State → List (Parcel N)
  pub evidence : State → List Evidence
  pub read_uuid : String → String
  pub read_numeric : String → String
  pub find_parcel : String → State → Attempt (Option (Parcel N))
  pub select_parcels : (Parcel N → Bool) → ℕ → ℕ → State → Attempt (List (Parcel N))
  pub count_parcels : (Parcel N → Bool) → State → Attempt ℕ
  pub average_trust : State → Attempt N
  pub insert_parcel : NewParcel N → State → Attempt (Parcel N × State)
  pub update_parcel : ParcelChanges N → String → State → Attempt (Option (Parcel N) × State)
  pub delete_parcel : String → State → Attempt (Option (Parcel N) × State)
  pub select_evidence : (Evidence → Bool) → State → Attempt (List Evidence)
  pub count_evidence : (Evidence → Bool) → State → Attempt ℕ
  pub insert_evidence : NewEvidence → State → Attempt (Evidence × State)
  pub update_evidence : EvidenceChanges → String → State → Attempt (Option Evidence × State)
  pub delete_evidence : String → State → Attempt (Option Evidence × State)

module _ {N : Type 0} where
  abbrev pub parcel_key : Parcel N → String
  parcel_key p = p.id

  -- `eq(parcelsTable.id, id)`
  abbrev pub has_id : String → Parcel N → Bool
  has_id = at parcel_key

  -- What an UPDATE of the parcel with an id makes of a row.
  abbrev pub changed_parcel : ParcelChanges N → String → ℕ → Parcel N → Parcel N
  changed_parcel c id time p = if has_id id p then change_parcel c time p else p

abbrev pub evidence_key : Evidence → String
evidence_key e = e.id

-- `eq(evidenceTable.id, id)`
abbrev pub is_evidence : String → Evidence → Bool
is_evidence = at evidence_key

-- `eq(evidenceTable.parcelId, id)`
abbrev pub belongs_to : String → Evidence → Bool
belongs_to id e = e.parcel_id == id

abbrev pub changed_evidence : EvidenceChanges → String → Evidence → Evidence
changed_evidence c id e = if is_evidence id e then change_evidence c e else e

-- What is relied on. Rows are found by their primary key; an INSERT and an UPDATE store an area as
-- its column reads it; an UPDATE changes the rows that it names and returns the new row; deleting a
-- parcel deletes its evidence (`onDelete: "cascade"`).
pub record IsLawful {N : Type 0} (db : Database N) : Type 0 where
  pub find_parcel_lem :
      (id : String) (s : db.State) (r : Option (Parcel N))
      → db.find_parcel id s ≡ done r
      → r ≡ find (has_id id) (db.parcels s)
  pub count_parcels_lem :
      (test : Parcel N → Bool) (s : db.State) (n : ℕ)
      → db.count_parcels test s ≡ done n
      → n ≡ count test (db.parcels s)
  pub count_evidence_lem :
      (test : Evidence → Bool) (s : db.State) (n : ℕ)
      → db.count_evidence test s ≡ done n
      → n ≡ count test (db.evidence s)
  pub insert_parcel_lem :
      (v : NewParcel N) (s : db.State) (r : Parcel N) (s' : db.State)
      → db.insert_parcel v s ≡ done (r, s')
      → (created : ℕ) × (updated : ℕ) × (r
          ≡ new_parcel (stored_parcel db.read_numeric v) r.id created updated)
        × (find (has_id r.id) (db.parcels s) ≡ none)
        × (db.parcels s' ≡ r ∷ db.parcels s)
        × (db.evidence s' ≡ db.evidence s)
  pub update_parcel_lem :
      (c : ParcelChanges N) (id : String) (s : db.State) (r : Option (Parcel N)) (s' : db.State)
      → db.update_parcel c id s ≡ done (r, s')
      → (time : ℕ) × (db.parcels s'
          ≡ map (changed_parcel (stored_changes db.read_numeric c) id time) (db.parcels s))
        × (r ≡ find (has_id id) (db.parcels s'))
        × (db.evidence s' ≡ db.evidence s)
  pub delete_parcel_lem :
      (id : String) (s : db.State) (r : Option (Parcel N)) (s' : db.State)
      → db.delete_parcel id s ≡ done (r, s')
      → (r ≡ find (has_id id) (db.parcels s))
        × (db.parcels s' ≡ keep (λ p. not (has_id id p)) (db.parcels s))
        × (db.evidence s' ≡ elim r [
          | none ↦ db.evidence s
          | some _ ↦ keep (λ e. not (belongs_to id e)) (db.evidence s)
        ])
  pub insert_evidence_lem :
      (v : NewEvidence) (s : db.State) (r : Evidence) (s' : db.State)
      → db.insert_evidence v s ≡ done (r, s')
      → (uploaded : ℕ) × (r ≡ new_evidence v r.id uploaded)
        × (find (is_evidence r.id) (db.evidence s) ≡ none)
        × (db.evidence s' ≡ r ∷ db.evidence s)
        × (db.parcels s' ≡ db.parcels s)
  pub update_evidence_lem :
      (c : EvidenceChanges) (id : String) (s : db.State) (r : Option Evidence) (s' : db.State)
      → db.update_evidence c id s ≡ done (r, s')
      → (db.evidence s' ≡ map (changed_evidence c id) (db.evidence s))
        × (r ≡ find (is_evidence id) (db.evidence s'))
        × (db.parcels s' ≡ db.parcels s)
  pub delete_evidence_lem :
      (id : String) (s : db.State) (r : Option Evidence) (s' : db.State)
      → db.delete_evidence id s ≡ done (r, s')
      → (r ≡ find (is_evidence id) (db.evidence s))
        × (db.evidence s' ≡ keep (λ e. not (is_evidence id e)) (db.evidence s))
        × (db.parcels s' ≡ db.parcels s)
