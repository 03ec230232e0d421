-- ===== src/Web/Detail/Upload.antt =====
-- artifacts/landvault-web/src/pages/parcels/detail.tsx: the card with the evidence for a parcel.
pub mod Requests
use development_plan.Base.{
  ℕ, ◌*◌, suc, String, ◌≡◌, Bool, true, false, not, ◌||◌, Option, none, some, List, [], ◌∷◌, ◌==◌,
  string_eq, if◌then◌else◌,
}
use development_plan.Base.Booleans.{leb}
use development_plan.Base.Attempt.{Attempt, done, threw}
use development_plan.Client.{File, Body, of_file}
use development_plan.Client.Api.{RequestOptions, HeadersInit, Runtime, Sent, IdValue, no_options}
use development_plan.Client.Api.Evidence.{
  upload_parcel_evidence, get_list_parcel_evidence_query_key,
}

-- The state of the card; `is_open` is `open`.
pub record Card : Type 0 where
  pub is_open : Bool
  pub file : Option File
  pub evidence_type : String
  pub basis : String
  pub is_pending : Bool

unfoldable pub fresh_card : Card
fresh_card = record {
  is_open = false;
  file = none;
  evidence_type = "SURVEY_PLAN";
  basis = "";
  is_pending = false;
}

abbrev pub max_upload_bytes : ℕ
max_upload_bytes = 10 * 1024 * 1024

unfoldable pub exceeds : Option File → Bool
exceeds none = false
exceeds (some file) = not (leb file.size max_upload_bytes)

abbrev pub is_none : Option File → Bool
is_none none = true
is_none (some file) = false

-- Whether the button of the upload is disabled.
unfoldable pub is_disabled : Card → Bool
is_disabled card = (is_none card.file || exceeds card.file) || (card.basis == "" || card.is_pending)

-- The options of the upload: `{ headers: { "Content-Type": file.type } }`.
unfoldable pub upload_options : File → RequestOptions
upload_options file = record no_options {
  headers = some (HeadersInit.object (("Content-Type", file.type) ∷ []));
}

-- `mutationFn`; the body is the file.
unfoldable pub mutation_fn : {Value : Type 0} → Runtime Value → String → Card → Attempt Sent
mutation_fn runtime parcel_id card = elim card.file [
  | none ↦ threw
  | some file ↦ done (
      upload_parcel_evidence runtime parcel_id (of_file file)
        (("filename", IdValue.id file.name)
          ∷ ("evidence_type", IdValue.id card.evidence_type)
          ∷ ("basis", IdValue.id card.basis)
          ∷ [])
        (some (upload_options file)))
]

-- What the page tells, and the query that it has loaded again.
pub data Effect : Type 0 where
  success error : String → Effect
  invalidate_queries : List String → Effect

unfoldable pub on_success : String → Card → Card × List Effect
on_success parcel_id card = (
  record card {
    is_open = false;
    file = none;
    basis = "";
    evidence_type = "SURVEY_PLAN";
    is_pending = false;
  },
  success "Evidence uploaded"
      ∷ invalidate_queries (get_list_parcel_evidence_query_key parcel_id)
      ∷ [],
)

unfoldable pub on_error : Card → Card × List Effect
on_error card = (record card { is_pending = false }, error "Failed to upload evidence" ∷ [])

-- What the visitor does and the server answers. `requests` are what `mutationFn` has given, the last
-- first, and `answered` is how many of them have come to an end.
module _ {Value : Type 0} (runtime : Runtime Value) (parcel_id : String) where
  pub data Reached : Card → List (Attempt Sent) → ℕ → Type 0 where
    start : Reached fresh_card [] 0
    set_open :
        {card : Card} {requests : List (Attempt Sent)} {answered : ℕ} (now : Bool)
        → Reached card requests answered
        → Reached (record card { is_open = now }) requests answered
    set_file :
        {card : Card} {requests : List (Attempt Sent)} {answered : ℕ} (file : Option File)
        → Reached card requests answered
        → Reached (record card { file = file }) requests answered
    set_evidence_type :
        {card : Card} {requests : List (Attempt Sent)} {answered : ℕ} (evidence_type : String)
        → Reached card requests answered
        → Reached (record card { evidence_type = evidence_type }) requests answered
    set_basis :
        {card : Card} {requests : List (Attempt Sent)} {answered : ℕ} (basis : String)
        → Reached card requests answered
        → Reached (record card { basis = basis }) requests answered
    mutate :
        {card : Card} {requests : List (Attempt Sent)} {answered : ℕ}
        → Reached card requests answered
        → is_disabled card ≡ false
        → Reached
            (record card { is_pending = true })
            (mutation_fn runtime parcel_id card ∷ requests)
            answered
    succeed :
        {card : Card} {requests : List (Attempt Sent)} {answered : ℕ}
        → Reached card requests answered
        → card.is_pending ≡ true
        → Reached (on_success parcel_id card).0 requests (suc answered)
    fail :
        {card : Card} {requests : List (Attempt Sent)} {answered : ℕ}
        → Reached card requests answered
        → card.is_pending ≡ true
        → Reached (on_error card).0 requests (suc answered)
