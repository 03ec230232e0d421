-- ===== src/Client.antt =====
-- lib/api-client-react/src/custom-fetch.ts up to its call of `fetch`: the module's settings, and
-- what becomes of the input and the options of `customFetch`.
pub mod Laws
pub mod Calls
pub mod Units
pub mod Reply
pub mod Api
use Prim.Native.Char.{Char, code}
use Prim.Native.String
use mathlib.Core.Logic.{ite}
use native.Mathlib.Decide.{ℕ_discrete}
use development_plan.Base.{
  ℕ, String, ◌<>◌, Bool, true, false, not, ◌&&◌, ◌||◌, Option, none, some, List, [], ◌∷◌, ◌++◌,
  keep, ◌==◌, string_eq, if◌then◌else◌,
}
use development_plan.Base.Attempt.{Attempt, done, threw}

-- The names of a `Headers` object, in lower case, with their values.
abbrev pub Headers : Type 0
Headers = List (String × String)

pub record Request : Type 0 where
  pub url : String
  pub method : String
  pub headers : Headers

-- `RequestInfo | URL`
pub data Input : Type 0 where
  text : String → Input
  url : String → Input
  request : Request → Input

-- What the platform gives: `toUpperCase`, the constructors `new URL` and `new Request`, which may
-- throw, and what `headers.set` stores of a value, unless it throws.
pub record Platform : Type 0 where
  pub to_upper_case : String → String
  pub new_url : String → Attempt String
  pub new_request : String → Request → Attempt Request
  pub header_value : String → Attempt String

-- `_baseUrl` and `_authTokenGetter`, the latter by what it gives when it is called.
pub record Settings : Type 0 where
  pub base_url : Option String
  pub auth_token : Option (Attempt (Option String))

-- A `File` that the visitor has picked: `contents` are its bytes.
pub record File : Type 0 where
  pub name : String
  pub type : String
  pub size : ℕ
  pub contents : List ℕ

pub data Body : Type 0 where
  text : String → Body
  of_file : File → Body
  other : Body

pub data ResponseType : Type 0 where
  json text blob auto : ResponseType

-- The options, their headers by what `new Headers` gives of them, unless it throws: names are in lower
-- case, and the values of a name are joined.
pub record Options : Type 0 where
  pub response_type : Option ResponseType
  pub headers : Option (Attempt Headers)
  pub method : Option String
  pub body : Option Body

-- The arguments of the call of `fetch`.
pub record Call : Type 0 where
  pub input : Input
  pub method : String
  pub headers : Headers
  pub body : Option Body

abbrev pub is_slash : Char → Bool
is_slash c = ite (ℕ_discrete (code c) b'/') true false

-- `url.replace(/\/+$/, "")`
unfoldable pub without_slashes : String → String
unfolding ℕ_discrete
without_slashes String.[] = ""
without_slashes (String.◌∷◌ c s) =
    let rest = without_slashes s in if is_slash c && rest == "" then "" else String.◌∷◌ c rest

unfoldable pub set_base_url : Option String → Settings → Settings
set_base_url none settings = record settings { base_url = none }
set_base_url (some address) settings = record settings {
  base_url = if address == "" then none else some (without_slashes address);
}

unfoldable pub set_auth_token_getter : Option (Attempt (Option String)) → Settings → Settings
set_auth_token_getter getter settings = record settings { auth_token = getter }

-- `url.startsWith("/")`
unfoldable pub is_relative : String → Bool
unfolding ℕ_discrete
is_relative String.[] = false
is_relative (String.◌∷◌ c s) = is_slash c

unfoldable pub resolve_url : Input → String
resolve_url (text s) = s
resolve_url (url href) = href
resolve_url (request r) = r.url

abbrev wrap : {A : Type 0} → (A → Input) → Attempt A → Attempt Input
wrap f (done a) = done (f a)
wrap f threw = threw

-- The input with another address.
unfoldable pub readdress : Platform → String → Input → Attempt Input
readdress platform absolute (text s) = done (text absolute)
readdress platform absolute (url href) = wrap url (platform.new_url absolute)
readdress platform absolute (request r) = wrap request (platform.new_request absolute r)

unfoldable pub apply_base_url : Platform → Option String → Input → Attempt Input
apply_base_url platform none input = done input
apply_base_url platform (some base) input =
    if base == "" || not (is_relative (resolve_url input))
    then done input
    else readdress platform (base <> resolve_url input) input

-- The method where none is given: a request's own, or GET.
unfoldable pub default_method : Platform → Input → String
default_method platform (request r) = platform.to_upper_case r.method
default_method platform (text _) = "GET"
default_method platform (url _) = "GET"

unfoldable pub resolve_method : Platform → Input → Option String → String
resolve_method platform input none = default_method platform input
resolve_method platform input (some explicit) =
    if explicit == "" then default_method platform input else platform.to_upper_case explicit

-- `headers.get(name)`
unfoldable pub get_header : String → Headers → Option String
get_header name [] = none
get_header name ((k, v) ∷ headers) =
    let rest = get_header name headers in if k == name then some v else rest

unfoldable pub has_header : String → Headers → Bool
has_header name [] = false
has_header name ((k, v) ∷ headers) = k == name || has_header name headers

-- `headers.set(name, value)`
unfoldable pub set_header : String → String → Headers → Headers
set_header name value headers = keep (λ h. not (h.0 == name)) headers ++ ((name, value) ∷ [])

unfoldable pub set_all : Headers → Headers → Headers
set_all [] headers = headers
set_all ((k, v) ∷ source) headers = set_all source (set_header k v headers)

unfoldable pub merge_headers : List (Option (Attempt Headers)) → Headers → Attempt Headers
merge_headers [] headers = done headers
merge_headers (none ∷ sources) headers = merge_headers sources headers
merge_headers (some threw ∷ sources) headers = threw
merge_headers (some (done source) ∷ sources) headers =
    merge_headers sources (set_all source headers)

-- The white space of `trimStart`
unfoldable pub is_space : ℕ → Bool
unfolding ℕ_discrete
is_space c = is_among c (
    9 ∷ 10 ∷ 11 ∷ 12 ∷ 13 ∷ 32 ∷ 160 ∷ 5760 ∷ 8192 ∷ 8193 ∷ 8194 ∷ 8195 ∷ 8196 ∷ 8197 ∷ 8198 ∷ 8199
    ∷ 8200 ∷ 8201 ∷ 8202 ∷ 8232 ∷ 8233 ∷ 8239 ∷ 8287 ∷ 12288 ∷ 65279 ∷ [])
  where
    is_among : ℕ → List ℕ → Bool
    is_among c [] = false
    is_among c (d ∷ ds) = ite (ℕ_discrete c d) true false || is_among c ds

unfoldable pub looks_like_json : String → Bool
unfolding is_space ℕ_discrete
looks_like_json String.[] = false
looks_like_json (String.◌∷◌ c s) =
    let rest = looks_like_json s in
    if is_space (code c)
    then rest
    else ite (ℕ_discrete (code c) b'{') true (ite (ℕ_discrete (code c) b'[') true false)

-- The headers that a request has by itself.
unfoldable pub own_headers : Input → Option (Attempt Headers)
own_headers (request r) = some (done r.headers)
own_headers (text _) = none
own_headers (url _) = none

abbrev pub is_json_text : Option Body → Bool
is_json_text none = false
is_json_text (some (of_file _)) = false
is_json_text (some other) = false
is_json_text (some (text s)) = looks_like_json s

abbrev pub is_json : Option ResponseType → Bool
is_json (some json) = true
is_json (some text) = false
is_json (some blob) = false
is_json (some auto) = false
is_json none = false

abbrev pub has_body : Option Body → Bool
has_body none = false
has_body (some _) = true

-- A header that is set on a condition, unless it is there.
abbrev pub default_header : Bool → String → String → Headers → Headers
default_header wanted name value headers =
    if wanted && not (has_header name headers) then set_header name value headers else headers

abbrev pub set_value : String → Attempt String → Headers → Attempt Headers
set_value name threw headers = threw
set_value name (done value) headers = done (set_header name value headers)

-- `if (token)`
unfoldable pub with_token : Platform → Option String → Headers → Attempt Headers
with_token platform none headers = done headers
with_token platform (some token) headers =
    if token == ""
    then done headers
    else set_value "authorization" (platform.header_value ("Bearer " <> token)) headers

unfoldable pub attach : Platform → Attempt (Option String) → Headers → Attempt Headers
attach platform threw headers = threw
attach platform (done token) headers = with_token platform token headers

-- The getter is called only where no authorization is given.
unfoldable pub authorize : Platform → Option (Attempt (Option String)) → Headers → Attempt Headers
authorize platform none headers = done headers
authorize platform (some getter) headers =
    if has_header "authorization" headers then done headers else attach platform getter headers

abbrev pub and_authorize :
    Platform → Option (Attempt (Option String)) → Attempt Headers → Attempt Headers
and_authorize platform getter threw = threw
and_authorize platform getter (done headers) = authorize platform getter headers

-- The defaults for what the merged headers do not have.
abbrev pub with_defaults : Options → Attempt Headers → Attempt Headers
with_defaults options threw = threw
with_defaults options (done merged) =
    let typed =
      default_header (is_json_text options.body) "content-type" "application/json" merged in
    done (
      default_header (is_json options.response_type) "accept"
        "application/json, application/problem+json" typed)

unfoldable pub prepared_headers : Input → Options → Attempt Headers
prepared_headers input options =
    with_defaults options (merge_headers (own_headers input ∷ options.headers ∷ []) [])

abbrev pub call_with : Input → String → Option Body → Attempt Headers → Attempt Call
call_with input method body threw = threw
call_with input method body (done headers) =
    done (record { input = input; method = method; headers = headers; body = body })

-- From the input that `applyBaseUrl` gives to the call of `fetch`. A GET or HEAD has no body.
unfoldable pub prepare_from : Platform → Settings → Options → Attempt Input → Attempt Call
prepare_from platform settings options threw = threw
prepare_from platform settings options (done input) =
    let method = resolve_method platform input options.method in
    if has_body options.body && (method == "GET" || method == "HEAD")
    then threw
    else call_with input method options.body
        (and_authorize platform settings.auth_token (prepared_headers input options))

-- `customFetch`, up to its call of `fetch`
unfoldable pub prepare : Platform → Settings → Input → Options → Attempt Call
prepare platform settings input options =
    prepare_from platform settings options (apply_base_url platform settings.base_url input)
