-- ===== src/Web/NewParcel.antt =====
-- artifacts/landvault-web/src/pages/parcels/new.tsx: the form that registers a parcel.
pub mod Fields
pub mod Submission
use development_plan.Base.{
  String, ◌<>◌, Option, none, some, List, [], ◌∷◌, ◌==◌, string_eq, if◌then◌else◌,
}
use development_plan.Schemas.Values.{Value, field, end}
use development_plan.Schemas.Zod.{
  Schema, object, min, string, optional, at_least, coerce_number, keys, Zod,
}
use development_plan.Client.Api.{Runtime, Sent}
use development_plan.Client.Api.Parcels.{create_parcel, get_list_parcels_query_key}

-- `formSchema`, but for the messages.
abbrev pub form_schema : Schema
form_schema = object (
    keys (
      ("current_owner_name", min 1 string)
      ∷ ("current_owner_contact", optional string)
      ∷ ("address", min 1 string)
      ∷ ("state", min 1 string)
      ∷ ("lga", min 1 string)
      ∷ ("size_sqm", at_least 1 coerce_number)
      ∷ ("property_type", min 1 string)
      ∷ []))

-- The fields at the start; `zero` is the number 0.
unfoldable pub default_values : {N : Type 0} → N → Value N
default_values zero = Value.object (
    field "current_owner_name" (Value.string "") (
      field "current_owner_contact" (Value.string "") (
        field "address" (Value.string "") (
          field "state" (Value.string "") (
            field "lga" (Value.string "") (
              field "size_sqm" (Value.number zero)
                (field "property_type" (Value.string "residential") end)))))))

-- `form.handleSubmit(onSubmit)` with the fields: the call that is made, if the schema accepts them.
unfoldable pub on_submit : {N : Type 0} → Zod N → Runtime (Value N) → Value N → Option Sent
on_submit z runtime fields = elim (z.parse form_schema fields) [
  | none ↦ none
  | some d ↦ some (create_parcel runtime d none)
]

-- The parcel that is answered, as far as the page reads it.
pub record Created : Type 0 where
  pub parcel_id : String
  pub parcel_number : Option String

-- What follows the answer, in order.
pub data Effect : Type 0 where
  success error : String → Option String → Effect
  invalidate_queries : List String → Effect
  set_location : String → Effect

-- A number that is missing or empty is not told.
abbrev pub number_told : Option String → Option String
number_told none = none
number_told (some s) = if s == "" then none else some ("Parcel Number: " <> s)

unfoldable pub on_success : Created → List Effect
on_success new_parcel =
    success "Parcel registered successfully" (number_told new_parcel.parcel_number)
    ∷ invalidate_queries get_list_parcels_query_key
    ∷ set_location ("/parcels/" <> new_parcel.parcel_id)
    ∷ []

unfoldable pub on_error : List Effect
on_error = error "Failed to register parcel" (some "Please check the form and try again.") ∷ []
