-- ===== src/Server/Contract.antt =====
-- What the routes take from @workspace/api-zod and from the JavaScript runtime. The routes are
-- written against schemas that lib/api-zod no longer holds, or holds in another shape; so the
-- schemas are parameters, each by what its `safeParse` or `parse` gives to the route.
use development_plan.Base.{ℕ, String, Bool, List, ◌≡◌, refl, ap, subst}
use development_plan.Base.Attempt.{Attempt, Action, done, return}
use development_plan.Server.Schema.{Nullable, Optional, Parcel}

-- The result of `safeParse`: the data, or the message of the error.
pub data Parsed {ℓ} (A : Type ℓ) : Type ℓ where
  success : A → Parsed A
  failure : String → Parsed A

-- What a route answers: a body with a status, `{ error }` with a status, or a bare status.
pub data Response (R : Type 0) : Type 0 where
  json : ℕ → R → Response R
  error : ℕ → String → Response R
  send_status : ℕ → Response R

-- A failed `safeParse` is answered at once.
unfoldable pub or_bad_request :
    {S A R : Type 0} → Parsed A → (A → Action S (Response R)) → Action S (Response R)
or_bad_request (failure message) k = return (error 400 message)
or_bad_request (success d) k = k d

-- What holds before holds after, if it does where the data is good.
pub or_bad_request-keeps {κ} :
    {S A R : Type 0} (P : S → Type κ) (p : Parsed A) (k : A → Action S (Response R)) (s s' : S)
    (r : Response R)
    → P s
    → ((d : A) → p ≡ success d → k d s ≡ (done r, s') → P s')
    → or_bad_request p k s ≡ (done r, s')
    → P s'
unfolding or_bad_request
or_bad_request-keeps P (failure message) k s s' r h good e = subst P (ap (λ x. x.1) e) h
or_bad_request-keeps P (success d) k s s' r h good e = good d refl e

-- A value of `req.params`, and the first one where there are several.
pub data RouteParam : Type 0 where
  one : String → RouteParam
  several : String → List String → RouteParam

abbrev pub raw_id : RouteParam → String
raw_id (one id) = id
raw_id (several id _) = id

-- What the runtime gives: a number as text and back, an ISO date, SQL's ILIKE, `Math.round`.
pub record Runtime (N : Type 0) : Type 0 where
  pub number_to_string : N → String
  pub to_number : String → N
  pub integer_to_string : ℕ → String
  pub to_iso_string : ℕ → String
  pub round : N → N
  pub ilike : String → String → Bool

pub record ParcelQuery : Type 0 where
  pub status : Optional String
  pub parcel_type : Optional String
  pub state : Optional String
  pub search : Optional String
  pub limit : Optional ℕ
  pub offset : Optional ℕ

pub record CreateParcelBody (N : Type 0) : Type 0 where
  pub owner_name : String
  pub owner_phone : Optional (Nullable String)
  pub owner_email : Optional (Nullable String)
  pub location_address : String
  pub state : String
  pub lga : String
  pub area_sqm : N
  pub parcel_type : String
  pub latitude : Optional (Nullable N)
  pub longitude : Optional (Nullable N)

pub record UpdateParcelBody (N : Type 0) : Type 0 where
  pub owner_name : Optional String
  pub owner_phone : Optional (Nullable String)
  pub owner_email : Optional (Nullable String)
  pub location_address : Optional String
  pub state : Optional String
  pub lga : Optional String
  pub area_sqm : Optional N
  pub parcel_type : Optional String
  pub status : Optional String
  pub latitude : Optional (Nullable N)
  pub longitude : Optional (Nullable N)

pub record AddEvidenceBody : Type 0 where
  pub document_type : String
  pub file_name : String
  pub notes : Optional (Nullable String)

pub record UpdateEvidenceBody : Type 0 where
  pub status : Optional String
  pub notes : Optional (Nullable String)

-- `{ ...parcel, area_sqm, title_number, … }`, as the routes build it from a row.
pub record ParcelShape (N : Type 0) : Type 0 where
  pub row : Parcel N
  pub area_sqm : N
  pub title_number : String
  pub owner_name : String
  pub owner_phone : Nullable String
  pub owner_email : Nullable String
  pub location_address : String
  pub parcel_type : String
  pub trust_score : ℕ
  pub latitude : Nullable N
  pub longitude : Nullable N
  pub created_at : String
  pub updated_at : String

pub record ParcelPage (N : Type 0) : Type 0 where
  pub items : List (ParcelShape N)
  pub total : ℕ

pub record EvidenceShape : Type 0 where
  pub id : String
  pub parcel_id : String
  pub document_type : String
  pub file_name : String
  pub notes : Nullable String
  pub status : String
  pub uploaded_at : String

pub record DashboardStats (N : Type 0) : Type 0 where
  pub total_parcels : ℕ
  pub registered_parcels : ℕ
  pub pending_parcels : ℕ
  pub disputed_parcels : ℕ
  pub avg_trust_score : N
  pub registrations_last_7_days : ℕ
  pub evidence_verified : ℕ
  pub evidence_pending : ℕ

pub record Contract (N : Type 0) : Type 1 where
  pub Json : Type 0
  pub Reply : Type 0
  pub list_parcels_query : Json → Parsed ParcelQuery
  pub list_parcels_response : ParcelPage N → Attempt Reply
  pub create_parcel_body : Json → Parsed (CreateParcelBody N)
  pub create_parcel_response : ParcelShape N → Attempt Reply
  pub get_parcel_response : ParcelShape N → Attempt Reply
  pub update_parcel_params : String → Parsed (Unit {0})
  pub update_parcel_body : Json → Parsed (UpdateParcelBody N)
  pub update_parcel_response : ParcelShape N → Attempt Reply
  pub delete_parcel_params : String → Parsed (Unit {0})
  pub list_evidence_params : String → Parsed (Unit {0})
  pub list_evidence_response : List EvidenceShape → Attempt Reply
  pub add_evidence_params : String → Parsed (Unit {0})
  pub add_evidence_body : Json → Parsed AddEvidenceBody
  pub add_evidence_response : EvidenceShape → Attempt Reply
  pub update_evidence_params : String → Parsed (Unit {0})
  pub update_evidence_body : Json → Parsed UpdateEvidenceBody
  pub update_evidence_response : EvidenceShape → Attempt Reply
  pub delete_evidence_params : String → Parsed (Unit {0})
  pub health_check_response : String → Attempt Reply
  pub dashboard_response : DashboardStats N → Attempt Reply
