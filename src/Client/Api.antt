-- ===== src/Client/Api.antt =====
-- lib/api-client-react/src/generated/api.ts: what the functions of the generated client share. Each
-- of them builds an address and the options of `customFetch`; each hook builds the settings that it
-- hands to react-query. The children hold the functions, by the part of the server they call.
pub mod Hooks
pub mod Uses
pub mod Auth
pub mod Tenants
pub mod Delegations
pub mod Parcels
pub mod Evidence
pub mod Operations
pub mod Paths
pub mod Routes
pub mod Routing
pub mod Forms
pub mod Sending
pub mod TypedHeaders
pub mod Queries
use development_plan.Base.{
  ℕ, zero, suc, String, ◌<>◌, Bool, true, false, Option, none, some, List, [], ◌∷◌, ◌==◌, string_eq,
  if◌then◌else◌,
}
use development_plan.Base.Attempt.{Attempt}
use development_plan.Client.{Headers, Body, text, ResponseType, Options}

-- A property of an object: it is not there, it is there and undefined, or it has a value.
pub data Given {ℓ} (A : Type ℓ) : Type ℓ where
  absent undefined : Given A
  value : A → Given A

-- `HeadersInit`
pub data HeadersInit : Type 0 where
  object pairs : List (String × String) → HeadersInit
  instance_of : Headers → HeadersInit

-- `Parameters<typeof customFetch>[1]`, an abort signal by its number.
pub record RequestOptions : Type 0 where
  pub response_type : Option ResponseType
  pub headers : Option HeadersInit
  pub method : Option String
  pub body : Option Body
  pub signal : Given ℕ

-- What the platform gives: `JSON.stringify` on the values of the schemas, `toString` of
-- `URLSearchParams`, the numerals of a property's name, and `new Headers`,
-- which may throw.
pub record Runtime (Value : Type 0) : Type 0 where
  pub stringify : Value → String
  pub search_params : List (String × String) → String
  pub numeral : ℕ → String
  pub new_headers : HeadersInit → Attempt Headers

-- The arguments of a call of `customFetch`.
pub record Sent : Type 0 where
  pub url : String
  pub options : RequestOptions

abbrev pub no_options : RequestOptions
no_options = record {
  response_type = none;
  headers = none;
  method = none;
  body = none;
  signal = absent;
}

-- `{ ...options }`
unfoldable pub spread : Option RequestOptions → RequestOptions
spread none = no_options
spread (some options) = options

-- A property is set in an object.
unfoldable pub set_property : String → String → List (String × String) → List (String × String)
set_property name v [] = (name, v) ∷ []
set_property name v ((k, w) ∷ properties) =
    let rest = set_property name v properties in
    if k == name then (k, v) ∷ properties else (k, w) ∷ rest

abbrev set_properties : List (String × String) → List (String × String) → List (String × String)
set_properties [] properties = properties
set_properties ((k, v) ∷ source) properties = set_properties source (set_property k v properties)

-- The properties of an array of pairs: their indices, and the pairs with a comma between.
abbrev numbered : (ℕ → String) → ℕ → List (String × String) → List (String × String)
numbered numeral n [] = []
numbered numeral n ((k, v) ∷ source) = (numeral n, k <> "," <> v) ∷ numbered numeral (suc n) source

-- What `...headers` copies: a `Headers` object has no properties of its own.
unfoldable pub own_properties :
    {Value : Type 0} → Runtime Value → Option HeadersInit → List (String × String)
own_properties runtime none = []
own_properties runtime (some (object properties)) = properties
own_properties runtime (some (pairs source)) = numbered runtime.numeral zero source
own_properties runtime (some (instance_of headers)) = []

-- `{ 'Content-Type': type, ...options?.headers }`
unfoldable pub typed_headers :
    {Value : Type 0} → Runtime Value → String → Option HeadersInit → HeadersInit
typed_headers runtime type headers =
    object (set_properties (own_properties runtime headers) (("Content-Type", type) ∷ []))

-- `{ ...options, method }`
unfoldable pub with_method : String → Option RequestOptions → RequestOptions
with_method method options = record (spread options) { method = some method }

-- `{ ...options, method, headers: { 'Content-Type': type, ...options?.headers }, body }`
unfoldable pub with_body :
    {Value : Type 0}
    → Runtime Value
    → String
    → String
    → Body
    → Option RequestOptions
    → RequestOptions
with_body runtime method type body options = record (spread options) {
  method = some method;
  headers = some (typed_headers runtime type (spread options).headers);
  body = some body;
}

-- The options of a call with a JSON body.
unfoldable pub with_json :
    {Value : Type 0} → Runtime Value → String → Value → Option RequestOptions → RequestOptions
with_json runtime method v options =
    with_body runtime method "application/json" (text (runtime.stringify v)) options

-- What `customFetch` reads of the options.
unfoldable pub read_options : {Value : Type 0} → Runtime Value → RequestOptions → Options
read_options runtime options = record {
  response_type = options.response_type;
  headers = elim options.headers [ none ↦ none | some init ↦ some (runtime.new_headers init) ];
  method = options.method;
  body = options.body;
}

-- An id, which may be missing where the type is not kept.
pub data IdValue : Type 0 where
  null undefined : IdValue
  id : String → IdValue

-- `${id}`
unfoldable pub printed : IdValue → String
printed null = "null"
printed undefined = "undefined"
printed (id s) = s

-- `id !== null && id !== undefined`
unfoldable pub is_given : IdValue → Bool
is_given null = false
is_given undefined = false
is_given (id s) = true
