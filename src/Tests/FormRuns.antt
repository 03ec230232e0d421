-- ===== src/Tests/FormRuns.antt =====
-- What the form of a parcel and the card of its evidence send, at concrete fields.
use development_plan.Base.{
  ℕ, ◌+◌, ◌≡◌, refl, true, false, none, some, [], ◌∷◌, string_eq, length, All,
}
use development_plan.Base.Attempt.{done}
use development_plan.Schemas.Values.{Value, Fields, field, end, get, has}
use development_plan.Schemas.Generated.Parcels.{create_parcel_body}
use development_plan.Schemas.Infer.Outcomes.{is_some}
use development_plan.Client as Http
use development_plan.Client.{
  Call, get_header, prepare, prepare_from, prepared_headers, resolve_method, call_with, has_body,
  apply_base_url, authorize,
}
use development_plan.Client.Laws.{last_value}
use development_plan.Client.Api as Api
use development_plan.Client.Api.{Runtime, Sent, IdValue, read_options}
use development_plan.Client.Api.Parcels.{create_parcel}
use development_plan.Client.Api.Evidence
use native.Mathlib.Decide.{ℕ_discrete}
use development_plan.Tests.SampleZod.{sample_zod, sample_zod-IsZod, parse, parse_each}
use development_plan.Tests.ApiRuns.{platform, based}
use development_plan.Web.NewParcel.{on_submit}
use development_plan.Web.NewParcel.Fields.{IsComplete}
use development_plan.Web.NewParcel.Submission.{on_submit-IsComplete}
use development_plan.Web.Detail.Upload.{
  Card, upload_options, fresh_card, is_disabled, exceeds, mutation_fn, on_success, start, set_open,
  set_file, set_basis, mutate, succeed,
}
use development_plan.Web.Detail.Upload.Requests.{
  IsUpload, number, upload_of, Reached-IsUpload, mutation_fn-typed,
}

-- The fields of the form, with an area that was typed, and what the schema makes of them.
abbrev fields : Fields ℕ
fields = field "current_owner_name" (Value.string "Ada") (
    field "address" (Value.string "Plot 15") (
      field "state" (Value.string "Lagos") (
        field "lga" (Value.string "Ikeja") (
          field "size_sqm" (Value.string "1200")
            (field "property_type" (Value.string "residential") end)))))

abbrev values : Value ℕ
values = Value.object (
    field "current_owner_name" (Value.string "Ada") (
      field "address" (Value.string "Plot 15") (
        field "state" (Value.string "Lagos") (
          field "lga" (Value.string "Ikeja") (
            field "size_sqm" (Value.number 1200)
              (field "property_type" (Value.string "residential") end))))))

abbrev form_runtime : Runtime (Value ℕ)
form_runtime = record {
  stringify = λ v. "{}";
  search_params = λ params. "";
  numeral = λ n. "0";
  new_headers = λ init. done (("content-type", "application/json") ∷ []);
}

abbrev creating : Sent
creating = create_parcel form_runtime values none

on_submit_run : on_submit sample_zod form_runtime (Value.object fields) ≡ some creating
unfolding on_submit parse parse_each get has string_eq
on_submit_run = refl

on_submit-IsComplete_example :
    (given : Fields ℕ) × (out : Fields ℕ) × (Value.object fields ≡ Value.object given)
    × (creating ≡ create_parcel form_runtime (Value.object out) none)
    × IsComplete sample_zod sample_zod-IsZod given out
    × (is_some (sample_zod.parse create_parcel_body (Value.object out)) ≡ true)
on_submit-IsComplete_example =
    on_submit-IsComplete sample_zod sample_zod-IsZod form_runtime (Value.object fields) creating
      on_submit_run

abbrev deed : Http.File
deed = record {
  name = "deed.pdf";
  type = "application/pdf";
  size = 4;
  contents = 37 ∷ 80 ∷ 68 ∷ 70 ∷ [];
}

abbrev filled : Card
filled = record fresh_card { is_open = true; file = some deed; basis = "survey" }

-- A runtime that reads the names of headers in lower case.
abbrev upload_runtime : Runtime (Unit {0})
upload_runtime = record {
  stringify = λ v. "{}";
  search_params = λ params. "filename=deed.pdf";
  numeral = λ n. "0";
  new_headers = λ init. done (("content-type", "application/pdf") ∷ []);
}

enabled : is_disabled filled ≡ false
unfolding is_disabled exceeds fresh_card string_eq
enabled = refl

pending : (record filled { is_pending = true }).is_pending ≡ true
pending = refl

Reached-IsUpload_example :
    All (IsUpload upload_runtime "1") (mutation_fn upload_runtime "1" filled ∷ [])
    × (length (mutation_fn upload_runtime "1" filled ∷ [])
        ≡ 1 + number (on_success "1" (record filled { is_pending = true })).0.is_pending)
Reached-IsUpload_example = Reached-IsUpload upload_runtime "1" (
    succeed (mutate (set_basis "survey" (set_file (some deed) (set_open true start))) enabled)
      pending)

abbrev uploading : Sent
uploading = upload_of upload_runtime "1" deed (
    ("filename", IdValue.id deed.name)
    ∷ ("evidence_type", IdValue.id filled.evidence_type)
    ∷ ("basis", IdValue.id filled.basis)
    ∷ [])

sending : mutation_fn upload_runtime "1" filled ≡ done uploading
unfolding mutation_fn fresh_card
sending = refl

abbrev upload_call : Call
upload_call = record {
  input = Http.Input.text "https://api/v1/parcels/1/evidence?filename=deed.pdf";
  method = "POST";
  headers = ("content-type", "application/pdf") ∷ ("authorization", "Bearer t1") ∷ [];
  body = some (Http.Body.of_file deed);
}

uploaded :
    prepare platform based
      (Http.Input.text uploading.url)
      (read_options upload_runtime uploading.options)
    ≡ done upload_call
unfolding Evidence.upload_parcel_evidence Evidence.get_upload_parcel_evidence_url
    Evidence.normalized_params upload_options Api.with_body Api.typed_headers Api.own_properties
    Api.set_property Api.spread read_options prepare prepare_from apply_base_url Http.readdress
    Http.resolve_url Http.is_relative resolve_method Http.default_method prepared_headers
    Http.own_headers Http.merge_headers Http.set_all Http.set_header Http.has_header
    Http.looks_like_json authorize Http.attach Http.with_token string_eq ℕ_discrete
uploaded = refl

abbrev pdf_headers : Http.Headers
pdf_headers = ("content-type", "application/pdf") ∷ []

type_read : last_value "content-type" pdf_headers ≡ some deed.type
unfolding string_eq
type_read = refl

mutation_fn-typed_example :
    (get_header "content-type" upload_call.headers ≡ some "application/pdf")
    × (upload_call.body ≡ some (Http.Body.of_file deed))
mutation_fn-typed_example =
    mutation_fn-typed upload_runtime "1" platform based filled deed uploading pdf_headers
      upload_call refl sending refl type_read uploaded
