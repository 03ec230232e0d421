-- ===== src/Client/Reply.antt =====
-- lib/api-client-react/src/custom-fetch.ts after its call of `fetch`: how a response becomes the
-- value or the error of `customFetch`.
pub mod Laws
use mathlib.Core.Logic.{ite}
use native.Mathlib.Decide.{ℕ_discrete}
use development_plan.Base.{
  ℕ, String, Bool, true, false, not, ◌&&◌, ◌||◌, Option, none, some, List, [], ◌∷◌, ◌++◌,
  if◌then◌else◌, ◌==◌, string_eq,
}
use development_plan.Client.{ResponseType, json, text, blob, auto}
use development_plan.Client.Units.{
  Text, units, is_empty, same_text, starts_with, ends_with, trim, before_semicolon, strip_bom,
  looks_like_json, truncate,
}

-- A value that is read: `V` holds what is neither null nor a text.
pub data Value (V : Type 0) : Type 0 where
  null : Value V
  string : Text → Value V
  other : V → Value V

-- What a promise comes to.
pub data Settled (A : Type 0) : Type 0 where
  resolved : A → Settled A
  rejected : Settled A

-- A `Response` of fetch, by what is read of it. `blob` is none where the method is missing.
pub record Response (V : Type 0) : Type 0 where
  pub ok : Bool
  pub status : ℕ
  pub status_text : Text
  pub url : Text
  pub content_type : Option Text
  pub content_length : Option Text
  pub body_is_null : Bool
  pub text : Settled Text
  pub blob : Option (Settled V)

-- JSON.parse (none where it throws), the field of a value where it is a text, a number in a text,
-- and `toLowerCase`.
pub record Runtime (V : Type 0) : Type 0 where
  pub parse : Text → Option (Value V)
  pub string_field : V → String → Option Text
  pub number_text : ℕ → Text
  pub to_lower_case : Text → Text

pub record RequestInfo : Type 0 where
  pub method : String
  pub url : Text

-- The errors that `customFetch` throws.
pub data Thrown (V : Type 0) : Type 0 where
  api_error : (status : ℕ) (data_of : Value V) (method : String) (url message : Text) → Thrown V
  response_parse_error : (status : ℕ) (raw_body : Text) (method : String) (url : Text) → Thrown V
  blob_unsupported : Thrown V
  read_failed : Thrown V

pub data Result (V A : Type 0) : Type 0 where
  returns : A → Result V A
  throws : Thrown V → Result V A

-- `if (text)` of an optional text
abbrev pub non_empty : Option Text → Option Text
non_empty none = none
non_empty (some []) = none
non_empty (some (c ∷ s)) = some (c ∷ s)

abbrev is_json_type : Text → Bool
is_json_type media = same_text media (units "application/json") || ends_with (units "+json") media

unfoldable pub is_json_media_type : Option Text → Bool
is_json_media_type none = false
is_json_media_type (some media) = is_json_type media

unfoldable pub is_text_media_type : Option Text → Bool
is_text_media_type none = false
is_text_media_type (some media) =
    not (is_empty media)
    && (starts_with (units "text/") media
        || (same_text media (units "application/xml")
            || (same_text media (units "text/xml")
                || (ends_with (units "+xml") media
                    || same_text media (units "application/x-www-form-urlencoded")))))

abbrev is_zero : Option Text → Bool
is_zero none = false
is_zero (some length) = same_text length (units "0")

abbrev pub is_no_body_status : ℕ → Bool
is_no_body_status status =
    ite (ℕ_discrete status 204) true
      (ite (ℕ_discrete status 205) true (ite (ℕ_discrete status 304) true false))

abbrev pub or_null : {V : Type 0} → Text → Value V
or_null [] = null
or_null (c ∷ s) = string (c ∷ s)

module _ {V : Type 0} where
  unfoldable pub has_no_body : Response V → String → Bool
  unfolding ℕ_discrete
  has_no_body response method =
      method == "HEAD"
      || (is_no_body_status response.status
          || (is_zero response.content_length || response.body_is_null))

  abbrev pub or_url : Response V → RequestInfo → Text
  or_url response info = if is_empty response.url then info.url else response.url

module _ {V : Type 0} (rt : Runtime V) where
  unfoldable pub get_media_type : Response V → Option Text
  get_media_type response = elim (non_empty response.content_type) [
    | none ↦ none
    | some value ↦ some (rt.to_lower_case (trim (before_semicolon value)))
  ]

  -- `getStringField`: the field's text without the space around it, if any is left.
  unfoldable pub get_string_field : Value V → String → Option Text
  get_string_field null key = none
  get_string_field (string s) key = none
  get_string_field (other v) key = elim (rt.string_field v key) [
    | none ↦ none
    | some s ↦ non_empty (some (trim s))
  ]

  abbrev pub http_prefix : Response V → Text
  http_prefix response =
      units "HTTP " ++ rt.number_text response.status ++ units " " ++ response.status_text

  abbrev pub or_field : Option Text → Option Text → Option Text
  or_field (some s) next = some s
  or_field none next = next

  -- The message from the fields of an object.
  abbrev pub detailed : Text → Option Text → Option Text → Option Text → Text
  detailed prefix (some title) (some detail) message =
      prefix ++ units ": " ++ title ++ units " — " ++ detail
  detailed prefix none (some detail) message = prefix ++ units ": " ++ detail
  detailed prefix title none (some message) = prefix ++ units ": " ++ message
  detailed prefix (some title) none none = prefix ++ units ": " ++ title
  detailed prefix none none none = prefix

  abbrev text_message : Text → Text → Text
  text_message prefix [] = prefix
  text_message prefix (c ∷ s) = prefix ++ units ": " ++ truncate (c ∷ s)

  abbrev object_message : Text → Value V → Text
  object_message prefix v =
      detailed prefix (get_string_field v "title") (get_string_field v "detail") (
        or_field (get_string_field v "message")
          (or_field (get_string_field v "error_description") (get_string_field v "error")))

  unfoldable pub build_error_message : Response V → Value V → Text
  build_error_message response (string s) = text_message (http_prefix response) (trim s)
  build_error_message response null = object_message (http_prefix response) null
  build_error_message response (other v) = object_message (http_prefix response) (other v)

  -- `new ApiError(response, data, requestInfo)`
  unfoldable pub new_api_error : Response V → Value V → RequestInfo → Thrown V
  new_api_error response v info =
      api_error response.status v info.method (or_url response info)
        (build_error_message response v)

  abbrev pub parsed : Response V → RequestInfo → Text → Option (Value V) → Result V (Value V)
  parsed response info raw none =
      throws (response_parse_error response.status raw info.method (or_url response info))
  parsed response info raw (some v) = returns v

  -- The value of the text without its byte order mark; an error keeps the text as it came.
  unfoldable pub json_from : Response V → RequestInfo → Text → Text → Result V (Value V)
  json_from response info raw normalized =
      if is_empty (trim normalized)
      then returns null
      else parsed response info raw (rt.parse normalized)

  abbrev pub json_of : Response V → RequestInfo → Text → Result V (Value V)
  json_of response info raw = json_from response info raw (strip_bom raw)

  unfoldable pub parse_json_body : Response V → RequestInfo → Result V (Value V)
  parse_json_body response info = elim response.text [
    | rejected ↦ throws read_failed
    | resolved raw ↦ json_of response info raw
  ]

  abbrev pub read_text : (Text → Value V) → Settled Text → Settled (Value V)
  read_text f rejected = rejected
  read_text f (resolved raw) = resolved (f raw)

  abbrev pub read_blob : Option (Settled V) → Settled Text → Settled (Value V)
  read_blob none raw = read_text string raw
  read_blob (some rejected) raw = rejected
  read_blob (some (resolved v)) raw = resolved (other v)

  -- The value of an error's text: the parsed JSON if it may be and is JSON, else the text.
  unfoldable pub error_value : Option Text → Text → Value V
  error_value media raw =
      if is_empty (trim (strip_bom raw))
      then null
      else if is_json_media_type media || looks_like_json (strip_bom raw)
      then elim (rt.parse (strip_bom raw)) [ none ↦ string raw | some v ↦ v ]
      else string raw

  abbrev pub is_binary : Option Text → Bool
  is_binary none = false
  is_binary (some []) = false
  is_binary (some (c ∷ s)) =
      not (is_json_media_type (some (c ∷ s))) && not (is_text_media_type (some (c ∷ s)))

  unfoldable pub parse_error_body : Response V → String → Settled (Value V)
  parse_error_body response method =
      if has_no_body response method
      then resolved null
      else if is_binary (get_media_type response)
      then read_blob response.blob response.text
      else read_text (error_value (get_media_type response)) response.text

  unfoldable pub infer_response_type : Option Text → ResponseType
  infer_response_type none = text
  infer_response_type (some media) =
      if is_json_media_type (some media)
      then json
      else if is_text_media_type (some media)
      then text
      else blob

  abbrev effective_type : ResponseType → Response V → ResponseType
  effective_type auto response = infer_response_type (get_media_type response)
  effective_type json response = json
  effective_type text response = text
  effective_type blob response = blob

  abbrev value_of : Settled (Value V) → Result V (Value V)
  value_of rejected = throws read_failed
  value_of (resolved v) = returns v

  abbrev blob_of : Option (Settled V) → Result V (Value V)
  blob_of none = throws blob_unsupported
  blob_of (some rejected) = throws read_failed
  blob_of (some (resolved v)) = returns (other v)

  abbrev read_as : ResponseType → Response V → RequestInfo → Result V (Value V)
  read_as json response info = parse_json_body response info
  read_as text response info = value_of (read_text or_null response.text)
  read_as blob response info = blob_of response.blob
  read_as auto response info = returns null

  unfoldable pub parse_success_body : Response V → ResponseType → RequestInfo → Result V (Value V)
  parse_success_body response response_type info =
      if has_no_body response info.method
      then returns null
      else read_as (effective_type response_type response) response info

  abbrev pub fail_with : Response V → RequestInfo → Settled (Value V) → Result V (Value V)
  fail_with response info rejected = throws read_failed
  fail_with response info (resolved v) = throws (new_api_error response v info)

  -- `customFetch` from its response on.
  unfoldable pub receive : Response V → ResponseType → RequestInfo → Result V (Value V)
  receive response response_type info =
      if response.ok
      then parse_success_body response response_type info
      else fail_with response info (parse_error_body response info.method)
