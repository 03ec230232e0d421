-- ===== src/Tests/ReplyRuns.antt =====
-- Responses that the client receives.
use development_plan.Base.{
  ℕ, ◌≤◌, ◌<◌, ◌≡◌, ◌⊎◌, refl, Bool, true, false, none, some, [], ◌∷◌, length, string_eq, ◌==◌,
  if◌then◌else◌,
}
use development_plan.Client.{auto, is_space}
use development_plan.Client.Units.{
  Text, units, truncate, strip_bom, trim, trim_start, trim_end, same_text, starts_with, ends_with,
  before_semicolon,
}
use development_plan.Client.Reply.{
  Value, other, resolved, Response, Runtime, RequestInfo, api_error, returns, throws, has_no_body,
  get_media_type, is_json_media_type, is_text_media_type, get_string_field, build_error_message,
  new_api_error, json_from, json_of, parse_json_body, error_value, parse_error_body,
  infer_response_type, parse_success_body, receive,
}
use development_plan.Client.Reply.Laws.{length-truncate, receive-error}

-- The one object that texts are parsed to has a message.
abbrev runtime : Runtime (Unit {0})
runtime = record {
  parse = λ s. if same_text s (units "{}") then some (other tt) else none;
  string_field = λ v key. if key == "message" then some (units " no such parcel ") else none;
  number_text = λ n. units "404";
  to_lower_case = λ s. s;
}

abbrev info : RequestInfo
info = record { method = "GET"; url = units "/v1/parcels" }

abbrev answer : Bool → ℕ → Text → Response (Unit {0})
answer ok status body = record {
  ok = ok;
  status = status;
  status_text = units "Not Found";
  url = [];
  content_type = some (units "application/json; charset=utf-8");
  content_length = none;
  body_is_null = false;
  text = resolved body;
  blob = none;
}

-- The message names the status and the field of the body.
error_run :
    receive runtime (answer false 404 (units "{}")) auto info
    ≡ throws (
        api_error 404
          (other tt)
          "GET"
          (units "/v1/parcels")
          (units "HTTP 404 Not Found: no such parcel"))
unfolding receive parse_error_body has_no_body get_media_type is_json_media_type is_text_media_type
    same_text ends_with starts_with trim trim_start trim_end is_space before_semicolon error_value
    strip_bom new_api_error build_error_message get_string_field string_eq
error_run = refl

success_run : receive runtime (answer true 200 (65279 ∷ units "{}")) auto info ≡ returns (other tt)
unfolding receive parse_success_body has_no_body get_media_type infer_response_type
    is_json_media_type same_text ends_with trim trim_start trim_end is_space before_semicolon
    parse_json_body json_from strip_bom string_eq
success_run = refl

length-truncate_example :
    (length (truncate (units "abc")) ≤ 300)
    × ((truncate (units "abc") ≡ units "abc") ⊎ (300 < length (units "abc")))
length-truncate_example = length-truncate (units "abc")

receive-error_example :
    (v : Value (Unit {0})) × (url : Text) × (receive runtime
        (answer false 404 (units "{}"))
        auto
        info
      ≡ throws (
          api_error 404 v "GET" url
            (build_error_message runtime (answer false 404 (units "{}")) v)))
receive-error_example =
    receive-error runtime (answer false 404 (units "{}")) auto info (units "{}") refl refl (λ e. cc)

json_run : json_of runtime (answer true 200 []) info (units "{}") ≡ returns (other tt)
unfolding json_from strip_bom trim trim_start trim_end is_space same_text
json_run = refl
