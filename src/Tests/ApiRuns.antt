-- ===== src/Tests/ApiRuns.antt =====
-- Calls of the generated client at concrete arguments.
use package.text.Mathlib.TextEquality.{eq_iff}
use native.Mathlib.Decide.{ℕ_discrete}
use development_plan.Base.{
  String, ◌≡◌, ◌↔◌, refl, true, Option, none, some, List, [], ◌∷◌, ◌==◌, string_eq, if◌then◌else◌,
  All, arith,
}
use development_plan.Base.Attempt.{done, threw}
use development_plan.Mockup.Texts.{same_char}
use development_plan.Client.{
  Headers, Input, Body, Platform, Settings, Call, has_body, get_header, is_relative, apply_base_url,
  readdress, resolve_url, resolve_method, default_method, has_header, set_header, set_all,
  merge_headers, looks_like_json, own_headers, and_authorize, authorize, attach, with_token,
  prepared_headers, prepare, prepare_from,
}
use development_plan.Client.Laws.{last_value, or_then}
use development_plan.Client.Api.{
  HeadersInit, object, instance_of, Runtime, RequestOptions, IdValue, Given, spread, with_method,
  typed_headers, own_properties, read_options, printed,
}
use development_plan.Client.Api.Hooks.{query_options, query_of, or_key, overridden}
use development_plan.Client.Api.Parcels
use development_plan.Client.Api.Uses.{Query, read, with_query_key, read-with_query_key}
use development_plan.Client.Api.Operations.{Operation, sent, operation_id, ids, parcel}
use development_plan.Client.Api.Operations.Parcels as ParcelCalls
use development_plan.Client.Api.Paths.{IsPlain, IsVerbatim, lacks, segments}
use development_plan.Client.Api.Routes.{find_route, routes, find_request}
use development_plan.Client.Api.Routing.{request-routed}
use development_plan.Client.Api.Sending.{perform, KeepsMethods, with_base, perform-routed}
use development_plan.Client.Api.Sending.Refusals.{perform-threw}
use development_plan.Client.Api.TypedHeaders.{typed_headers-own}
use development_plan.Client.Api.Queries as Queries
use development_plan.Client.Api.Queries.{settings, operation, settings-decide}

abbrev pub runtime : Runtime String
runtime = record {
  stringify = λ v. v;
  search_params = λ params. "filename=a.pdf";
  numeral = λ n. "0";
  new_headers = λ init. elim init [
    | object properties ↦ done properties
    | HeadersInit.pairs source ↦ done source
    | instance_of headers ↦ done headers
  ];
}

abbrev pub platform : Platform
platform = record {
  to_upper_case = λ s. s;
  new_url = λ s. done s;
  new_request = λ s r. done (record r { url = s });
  header_value = λ s. done s;
}

abbrev pub based : Settings
based = record { base_url = some "https://api"; auth_token = some (done (some "t1")) }

abbrev pub archiving : Operation String
archiving = parcel (ParcelCalls.archive_parcel "p1")

plain : All IsVerbatim (ids archiving)
unfolding ids ParcelCalls.ids lacks same_char ℕ_discrete
plain = (((ground (arith, eq_iff "p1" ""), refl, refl), refl), tt)

request-routed_example :
    find_request (sent runtime archiving none) ≡ some (operation_id archiving, ids archiving)
request-routed_example = request-routed runtime archiving none plain

abbrev pub call : Call
call = record {
  input = Input.text "https://api/v1/parcels/p1/archive";
  method = "POST";
  headers = ("authorization", "Bearer t1") ∷ [];
  body = none;
}

pub archive_run : perform runtime platform based archiving none ≡ done call
unfolding perform sent ParcelCalls.sent Parcels.archive_parcel Parcels.get_archive_parcel_url
    with_method spread read_options prepare prepare_from apply_base_url readdress resolve_url
    is_relative resolve_method default_method prepared_headers own_headers merge_headers set_all
    set_header has_header looks_like_json authorize attach with_token string_eq ℕ_discrete
archive_run = refl

keeps : KeepsMethods platform
keeps = (refl, refl, refl, refl)

perform-routed_example :
    (path : String) × (call.input ≡ Input.text (with_base based.base_url path))
    × (find_route routes call.method (segments path) ≡ some (operation_id archiving, ids archiving))
perform-routed_example =
    perform-routed runtime platform based archiving none call keeps plain archive_run

-- Options with a body, for a call that is a GET.
abbrev with_text : RequestOptions
with_text = record {
  response_type = none;
  headers = none;
  method = none;
  body = some (Body.text "{}");
  signal = Given.absent;
}

abbrev with_text_headers : Headers
with_text_headers = ("content-type", "application/json") ∷ ("authorization", "Bearer t1") ∷ []

authorized_run :
    and_authorize platform based.auth_token (
      prepared_headers
        (Input.text (
          with_base based.base_url
            (sent runtime (parcel ParcelCalls.list_parcels) (some with_text)).url))
        (read_options runtime
          (sent runtime (parcel ParcelCalls.list_parcels) (some with_text)).options))
    ≡ done with_text_headers
unfolding sent ParcelCalls.sent Parcels.list_parcels with_method spread read_options
    prepared_headers own_headers merge_headers set_all set_header has_header looks_like_json
    authorize attach with_token string_eq ℕ_discrete
authorized_run = refl

perform-threw_example :
    (perform runtime platform based (parcel ParcelCalls.list_parcels) (some with_text) ≡ threw) ↔ (
      ((sent runtime (parcel ParcelCalls.list_parcels) (some with_text)).options.method
        ≡ some "GET")
      × (has_body (spread (some with_text)).body ≡ true))
perform-threw_example =
    perform-threw runtime platform based (parcel ParcelCalls.list_parcels) (some with_text)
      with_text_headers keeps authorized_run

-- A missing id has the key of the id "null".
abbrev missing : Queries.Query
missing = Queries.get_parcel IdValue.null

abbrev named_null : Queries.Query
named_null = Queries.get_parcel (IdValue.id "null")

abbrev IsPlainQuery : Queries.Query → Type 0
IsPlainQuery q = All IsPlain (ids {Value = String} (operation q))

missing-IsPlainQuery : IsPlainQuery missing
unfolding ids operation printed ParcelCalls.ids lacks same_char ℕ_discrete
missing-IsPlainQuery = ((ground (arith, eq_iff "null" ""), refl, refl), tt)

named_null-IsPlainQuery : IsPlainQuery named_null
unfolding ids operation printed ParcelCalls.ids lacks same_char ℕ_discrete
named_null-IsPlainQuery = ((ground (arith, eq_iff "null" ""), refl, refl), tt)

same_key : (settings missing none).query_key ≡ (settings named_null none).query_key
unfolding settings Parcels.get_get_parcel_query_options Parcels.get_get_parcel_query_key
    query_options query_of or_key overridden printed
same_key = refl

settings-decide_example :
    (operation_id {Value = String} (operation missing)
      ≡ operation_id {Value = String} (operation named_null))
    × (ids {Value = String} (operation missing) ≡ ids {Value = String} (operation named_null))
settings-decide_example =
    settings-decide runtime missing named_null missing-IsPlainQuery named_null-IsPlainQuery same_key

abbrev traced : Option HeadersInit
traced = some (object (("x-trace", "7") ∷ []))

abbrev trace : String
trace = "x-trace"

typed_headers-own_example :
    (properties : List (String × String)) × (typed_headers runtime "application/json" traced
      ≡ object properties)
    × (get_header trace properties
        ≡ or_then
            (last_value trace (own_properties runtime traced))
            (if "Content-Type" == trace then some "application/json" else none))
typed_headers-own_example = typed_headers-own runtime "application/json" traced trace

-- A query whose status is what the state of react-query says.
abbrev observed : Query String String
observed = ("status", λ s. some s) ∷ ("queryKey", λ s. some "") ∷ []

read-with_query_key_example : read "status" (with_query_key observed "/v1/parcels") "success" ≡ (
    if ◌==◌ {A = String} "status" "queryKey"
    then some "/v1/parcels"
    else read "status" observed "success")
read-with_query_key_example = read-with_query_key "status" observed "/v1/parcels" "success"
