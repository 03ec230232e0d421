-- ===== src/Client/Api/Sending.antt =====
-- lib/api-client-react/src: from a call of the generated client to the call of `fetch` that
-- `customFetch` makes of it.
pub mod Refusals
use mathlib.Core.Logic.{if_pos, if_neg}
use package.text.Mathlib.TextLemmas.{nil-append}
use package.text.Mathlib.TextEquality.{eq_iff}
use development_plan.Base.{
  String, ◌<>◌, ◌≡◌, ◌≢◌, ◌⊎◌, ◌↔◌, inl, inr, refl, sym, ap, ◌∙◌, Bool, true, false, ◌&&◌, ◌||◌,
  Option, none, some, List, ◌==◌, string_eq, if◌then◌else◌, All, arith, Bool-cases, if_of_true,
  if_of_false,
}
use development_plan.Base.Attempt.{Attempt, done, threw}
use development_plan.Client.{
  Headers, Input, text, Platform, Settings, Options, Call, Body, is_relative, apply_base_url,
  readdress, resolve_url, resolve_method, authorize, attach, prepare, prepare_from,
  prepared_headers, call_with, has_body, has_header, with_token,
}
use development_plan.Client.Calls.{prepare-IsMade}
use development_plan.Client.Api.{Runtime, RequestOptions, Sent, spread, read_options}
use development_plan.Client.Api.Operations.{Operation, sent, operation_id, ids}
use development_plan.Client.Api.Paths.{segments, IsVerbatim}
use development_plan.Client.Api.Routes.{find_route, routes, find_request-method}
use development_plan.Client.Api.Routing.{request-routed}
use development_plan.Client.Api.Forms.{Reads, Writes, IsFormed, sent-IsFormed}

-- A call of the client, up to the call of `fetch`.
unfoldable pub perform :
    {Value : Type 0}
    → Runtime Value
    → Platform
    → Settings
    → Operation Value
    → Option RequestOptions
    → Attempt Call
perform runtime platform settings operation options =
    let request = sent runtime operation options in
    prepare platform settings (text request.url) (read_options runtime request.options)

-- `toUpperCase` at the methods of the client.
abbrev pub KeepsMethods : Platform → Type 0
KeepsMethods platform =
    (platform.to_upper_case "GET" ≡ "GET")
    × (platform.to_upper_case "POST" ≡ "POST")
    × (platform.to_upper_case "PATCH" ≡ "PATCH")
    × (platform.to_upper_case "PUT" ≡ "PUT")

abbrev pub with_base : Option String → String → String
with_base none url = url
with_base (some base) url = base <> url

pub apply_base_url-path :
    (platform : Platform) (base : Option String) (url : String)
    → is_relative url ≡ true
    → apply_base_url platform base (text url) ≡ done (text (with_base base url))
unfolding apply_base_url readdress resolve_url string_eq
apply_base_url-path platform none url relative = refl
apply_base_url-path platform (some base) url relative = elim (string_eq.dec base "") [
  | yes e ↦ rw (e, nil-append url) refl
  | no n ↦ rw (if_neg _ n, relative) refl
]

-- The method of a request, as `customFetch` resolves it.
abbrev pub Resolves : Platform → Option String → String → Type 0
Resolves platform given m = (given ≡ some m) × ((i : Input) → resolve_method platform i given ≡ m)

resolve_method-kept :
    (platform : Platform) (given : Option String) (m : String)
    → given ≡ some m
    → m ≢ ""
    → platform.to_upper_case m ≡ m
    → Resolves platform given m
unfolding resolve_method
resolve_method-kept platform given m e n kept = (e, λ i. rw e (rw (if_neg _ n) kept))

pub resolved :
    (platform : Platform) (options : Option RequestOptions) (s : Sent)
    → KeepsMethods platform
    → IsFormed options s
    → (m : String) × Resolves platform s.options.method m
resolved platform options s keeps (relative, inl reads) =
    ("GET", resolve_method-kept platform _ "GET" reads.0 (ground (arith, eq_iff "GET" "")) keeps.0)
resolved platform options s keeps (relative, inr (inl e)) =
    ("POST", resolve_method-kept platform _ "POST" e (ground (arith, eq_iff "POST" "")) keeps.1)
resolved platform options s keeps (relative, inr (inr (inl e))) =
    ("PATCH", resolve_method-kept platform _ "PATCH" e (ground (arith, eq_iff "PATCH" "")) keeps.2)
resolved platform options s keeps (relative, inr (inr (inr e))) =
    ("PUT", resolve_method-kept platform _ "PUT" e (ground (arith, eq_iff "PUT" "")) keeps.3)

same_input : {a b : Input} → done a ≡ done b → a ≡ b
same_input e = cc

-- Where `toUpperCase` keeps the methods, and the ids are not empty and consist of letters, digits, `-`
-- and `_`: a call of the client that comes to a call of `fetch` makes it at the base address,
-- if one is set, followed by a path, and with a method, for which the server's routes have the
-- operation itself, with the ids as its parameters.
pub perform-routed :
    {Value : Type 0} (runtime : Runtime Value) (platform : Platform) (settings : Settings)
    (operation : Operation Value) (options : Option RequestOptions) (call : Call)
    → KeepsMethods platform
    → All IsVerbatim (ids operation)
    → perform runtime platform settings operation options ≡ done call
    → (path : String) × (call.input ≡ text (with_base settings.base_url path))
      × (find_route routes call.method (segments path)
          ≡ some (operation_id operation, ids operation))
unfolding perform read_options
perform-routed runtime platform settings operation options call keeps plain e =
    let request = sent runtime operation options in
    let formed = sent-IsFormed runtime operation options in
    let (m, (stated, resolves)) = resolved platform options request keeps formed in
    let made =
      prepare-IsMade platform settings (text request.url) (read_options runtime request.options)
        call e in
    (
      request.url,
      same_input (
          sym made.addressed ∙ apply_base_url-path platform settings.base_url request.url formed.0),
      ap (λ k. find_route routes k (segments request.url)) (made.method ∙ resolves call.input)
          ∙ sym (find_request-method request m stated)
          ∙ request-routed runtime operation options plain,
    )
