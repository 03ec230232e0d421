-- ===== src/Server/Schema.antt =====
-- lib/db/src/schema: the rows of the two tables, what an INSERT gives, and what an UPDATE sets.
-- `N` is the type of JavaScript numbers that the server only stores and passes on (coordinates and
-- areas), and a `Date` is a number of milliseconds.
use mathlib.Core.Option
use development_plan.Base.{ℕ, String, Option, none, some}

-- A nullable column: `none` is NULL.
abbrev pub Nullable : Type 0 → Type 0
Nullable = Option

-- An optional property of an object: `none` is `undefined`.
abbrev pub Optional : Type 0 → Type 0
Optional = Option

-- `parcelsTable.$inferSelect`
pub record Parcel (N : Type 0) : Type 0 where
  pub id : String
  pub title_number : String
  pub owner_name : String
  pub owner_phone : Nullable String
  pub owner_email : Nullable String
  pub location_address : String
  pub state : String
  pub lga : String
  pub area_sqm : String
  pub parcel_type : String
  pub status : String
  pub trust_score : ℕ
  pub latitude : Nullable N
  pub longitude : Nullable N
  pub created_at : ℕ
  pub updated_at : ℕ

-- The values of an INSERT: the other columns have defaults.
pub record NewParcel (N : Type 0) : Type 0 where
  pub title_number : String
  pub owner_name : String
  pub owner_phone : Nullable String
  pub owner_email : Nullable String
  pub location_address : String
  pub state : String
  pub lga : String
  pub area_sqm : String
  pub parcel_type : String
  pub status : String
  pub trust_score : ℕ
  pub latitude : Nullable N
  pub longitude : Nullable N

-- The values as they are stored: the area is read into a numeric(12, 2).
abbrev pub stored_parcel : {N : Type 0} → (String → String) → NewParcel N → NewParcel N
stored_parcel read_numeric v = record v { area_sqm = read_numeric v.area_sqm }

-- The row that an INSERT of stored values adds, from the defaults that the database draws.
abbrev pub new_parcel : {N : Type 0} → NewParcel N → String → ℕ → ℕ → Parcel N
new_parcel v id created updated = record {
  id = id;
  title_number = v.title_number;
  owner_name = v.owner_name;
  owner_phone = v.owner_phone;
  owner_email = v.owner_email;
  location_address = v.location_address;
  state = v.state;
  lga = v.lga;
  area_sqm = v.area_sqm;
  parcel_type = v.parcel_type;
  status = v.status;
  trust_score = v.trust_score;
  latitude = v.latitude;
  longitude = v.longitude;
  created_at = created;
  updated_at = updated;
}

-- `Partial<typeof parcelsTable.$inferInsert>`, with the columns that the server sets.
pub record ParcelChanges (N : Type 0) : Type 0 where
  pub owner_name : Optional String
  pub owner_phone : Optional (Nullable String)
  pub owner_email : Optional (Nullable String)
  pub location_address : Optional String
  pub state : Optional String
  pub lga : Optional String
  pub area_sqm : Optional String
  pub parcel_type : Optional String
  pub status : Optional String
  pub trust_score : Optional ℕ
  pub latitude : Optional (Nullable N)
  pub longitude : Optional (Nullable N)

-- The changes as they are stored.
abbrev pub stored_changes : {N : Type 0} → (String → String) → ParcelChanges N → ParcelChanges N
stored_changes read_numeric c = record c { area_sqm = Option.map read_numeric c.area_sqm }

-- A column after `SET`: the new value if there is one.
abbrev pub assign : {A : Type 0} → Optional A → A → A
assign none old = old
assign (some new) old = new

-- A row after an UPDATE by stored changes at a time: `$onUpdate` draws `updatedAt` anew.
abbrev pub change_parcel : {N : Type 0} → ParcelChanges N → ℕ → Parcel N → Parcel N
change_parcel c time p = record p {
  owner_name = assign c.owner_name p.owner_name;
  owner_phone = assign c.owner_phone p.owner_phone;
  owner_email = assign c.owner_email p.owner_email;
  location_address = assign c.location_address p.location_address;
  state = assign c.state p.state;
  lga = assign c.lga p.lga;
  area_sqm = assign c.area_sqm p.area_sqm;
  parcel_type = assign c.parcel_type p.parcel_type;
  status = assign c.status p.status;
  trust_score = assign c.trust_score p.trust_score;
  latitude = assign c.latitude p.latitude;
  longitude = assign c.longitude p.longitude;
  updated_at = time;
}

-- `evidenceTable.$inferSelect`
pub record Evidence : Type 0 where
  pub id : String
  pub parcel_id : String
  pub document_type : String
  pub file_name : String
  pub notes : Nullable String
  pub status : String
  pub uploaded_at : ℕ

pub record NewEvidence : Type 0 where
  pub parcel_id : String
  pub document_type : String
  pub file_name : String
  pub notes : Nullable String
  pub status : String

abbrev pub new_evidence : NewEvidence → String → ℕ → Evidence
new_evidence v id uploaded = record {
  id = id;
  parcel_id = v.parcel_id;
  document_type = v.document_type;
  file_name = v.file_name;
  notes = v.notes;
  status = v.status;
  uploaded_at = uploaded;
}

pub record EvidenceChanges : Type 0 where
  pub status : Optional String
  pub notes : Optional (Nullable String)

abbrev pub change_evidence : EvidenceChanges → Evidence → Evidence
change_evidence c e = record e { status = assign c.status e.status; notes = assign c.notes e.notes }
