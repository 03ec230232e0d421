-- ===== src/Client/Api/Hooks.antt =====
-- lib/api-client-react/src/generated/api.ts: the settings that the functions of the generated client
-- make for the hooks of react-query. A mutation is given its variables.
use development_plan.Base.{ℕ, String, Bool, Option, none, some, List, [], ◌∷◌}
use development_plan.Client.Api.{Given, absent, undefined, value, RequestOptions, Sent, spread}

-- A property that a later spread may set again.
unfoldable pub overridden {ℓ} : {A : Type ℓ} → Given A → Given A → Given A
overridden absent earlier = earlier
overridden undefined earlier = undefined
overridden (value a) earlier = value a

-- `UseQueryOptions`, as far as the client reads or sets them: the given ones, and the result.
pub record QuerySettings : Type 0 where
  pub query_key : Given (List String)
  pub query_fn : Given (ℕ → Sent)
  pub enabled : Given Bool

pub record QueryArguments : Type 0 where
  pub query : Option QuerySettings
  pub request : Option RequestOptions

unfoldable pub query_of : Option QueryArguments → QuerySettings
query_of none = record { query_key = absent; query_fn = absent; enabled = absent }
query_of (some arguments) = elim arguments.query [
  | none ↦ record { query_key = absent; query_fn = absent; enabled = absent }
  | some query ↦ query
]

unfoldable pub query_request_of : Option QueryArguments → Option RequestOptions
query_request_of none = none
query_request_of (some arguments) = arguments.request

-- `queryOptions?.queryKey ?? key`
unfoldable pub or_key : Given (List String) → List String → List String
or_key absent key = key
or_key undefined key = key
or_key (value given) key = given

-- `{ signal, ...requestOptions }`
unfoldable pub with_signal : ℕ → Option RequestOptions → RequestOptions
with_signal signal options = record (spread options) {
  signal = overridden (spread options).signal (value signal);
}

-- What `getXQueryOptions` gives: key, function and condition, and the given settings over them.
unfoldable pub query_options :
    List String
    → (Option RequestOptions → Sent)
    → Given Bool
    → Option QueryArguments
    → QuerySettings
query_options key call enabled arguments =
    let query = query_of arguments in
    let query_key = or_key query.query_key key in
    record {
      query_key = overridden query.query_key (value query_key);
      query_fn =
          overridden query.query_fn
            (value (λ signal. call (some (with_signal signal (query_request_of arguments)))));
      enabled = overridden query.enabled enabled;
    }

-- `UseMutationOptions`, likewise.
pub record MutationSettings (Variables : Type 0) : Type 0 where
  pub mutation_key : Given (List String)
  pub mutation_fn : Given (Variables → Sent)

pub record MutationArguments (Variables : Type 0) : Type 0 where
  pub mutation : Option (MutationSettings Variables)
  pub request : Option RequestOptions

-- `{ ...mutation, mutationKey }`, unless the settings have a key.
unfoldable pub keyed :
    {Variables : Type 0}
    → List String
    → Option (MutationSettings Variables)
    → MutationSettings Variables
keyed key none = record { mutation_key = value key; mutation_fn = absent }
keyed key (some settings) = elim settings.mutation_key [
  | value given ↦ settings
  | absent ↦ record settings { mutation_key = value key }
  | undefined ↦ record settings { mutation_key = value key }
]

unfoldable pub mutation_of :
    {Variables : Type 0}
    → Option (MutationArguments Variables)
    → Option (MutationSettings Variables)
mutation_of none = none
mutation_of (some arguments) = arguments.mutation

unfoldable pub mutation_request_of :
    {Variables : Type 0} → Option (MutationArguments Variables) → Option RequestOptions
mutation_request_of none = none
mutation_request_of (some arguments) = arguments.request

-- What `getXMutationOptions` gives: the function, and the given settings with a key over it.
unfoldable pub mutation_options :
    {Variables : Type 0}
    → String
    → (Variables → Option RequestOptions → Sent)
    → Option (MutationArguments Variables)
    → MutationSettings Variables
mutation_options name call arguments =
    let settings = keyed (name ∷ []) (mutation_of arguments) in
    record settings {
      mutation_fn =
          overridden settings.mutation_fn
            (value (λ variables. call variables (mutation_request_of arguments)));
    }
