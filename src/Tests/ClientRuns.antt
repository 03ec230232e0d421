-- ===== src/Tests/ClientRuns.antt =====
-- Calls of the client at concrete settings.
use package.text.Mathlib.TextEquality.{eq_iff}
use development_plan.Base.{
  ◌<>◌, ◌≡◌, refl, ◌≢◌, none, some, [], ◌∷◌, string_eq, arith, ◌==◌, if◌then◌else◌,
}
use development_plan.Base.Attempt.{done}
use development_plan.Client.{
  text, Platform, Settings, Options, Call, json, without_slashes, is_relative, set_base_url,
  set_auth_token_getter, apply_base_url, readdress, resolve_url, resolve_method, default_method,
  get_header, has_header, set_header, set_all, merge_headers, looks_like_json, own_headers,
  authorize, attach, with_token, prepared_headers, prepare, prepare_from,
}
use development_plan.Client.Calls.{prepare-explicit, prepare-based}

abbrev platform : Platform
platform = record {
  to_upper_case = λ s. if s == "post" then "POST" else s;
  new_url = λ s. done s;
  new_request = λ s r. done (record r { url = s });
  header_value = λ s. done s;
}

abbrev unset : Settings
unset = record { base_url = none; auth_token = none }

abbrev based : Settings
based = record { base_url = some "https://api"; auth_token = some (done (some "t1")) }

-- A POST of a JSON text, with a content type of its own.
abbrev options : Options
options = record {
  response_type = some json;
  headers = some (done (("content-type", "text/plain") ∷ []));
  method = some "post";
  body = some (text "{}");
}

abbrev call : Call
call = record {
  input = text "https://api/parcels";
  method = "POST";
  headers =
      ("content-type", "text/plain")
      ∷ ("accept", "application/json, application/problem+json")
      ∷ ("authorization", "Bearer t1")
      ∷ [];
  body = some (text "{}");
}

base_run :
    set_base_url (some "https://api//") (set_auth_token_getter (some (done (some "t1"))) unset)
    ≡ based
unfolding set_base_url set_auth_token_getter without_slashes string_eq
base_run = refl

prepare_run : prepare platform based (text "/parcels") options ≡ done call
unfolding prepare prepare_from apply_base_url readdress resolve_url is_relative resolve_method
    default_method prepared_headers own_headers merge_headers set_all set_header has_header
    looks_like_json authorize attach with_token string_eq
prepare_run = refl

prepare-explicit_example : get_header "content-type" call.headers ≡ some "text/plain"
unfolding string_eq
prepare-explicit_example =
    prepare-explicit platform based (text "/parcels") options call
      (("content-type", "text/plain") ∷ []) "content-type" "text/plain" refl refl prepare_run

abbrev from_unset : Settings
from_unset = record { base_url = none; auth_token = some (done (some "t1")) }

given : without_slashes "https://api//" ≢ ""
unfolding without_slashes string_eq
given = ground (arith, eq_iff "https://api" "")

prepare_based_run :
    prepare platform (set_base_url (some "https://api//") from_unset) (text "/parcels") options
    ≡ done call
unfolding set_base_url without_slashes prepare prepare_from apply_base_url readdress resolve_url
    is_relative resolve_method default_method prepared_headers own_headers merge_headers set_all
    set_header has_header looks_like_json authorize attach with_token string_eq
prepare_based_run = refl

prepare-based_example : call.input ≡ text (without_slashes "https://api//" <> "/parcels")
unfolding is_relative
prepare-based_example =
    prepare-based platform from_unset "https://api//" "/parcels" options call given refl
      prepare_based_run

authorize_run :
    authorize platform (some (done (some "t1"))) (("accept", "*") ∷ [])
    ≡ done (("accept", "*") ∷ ("authorization", "Bearer t1") ∷ [])
unfolding authorize attach with_token has_header set_header string_eq
authorize_run = refl
