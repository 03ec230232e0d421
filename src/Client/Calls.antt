-- ===== src/Client/Calls.antt =====
-- lib/api-client-react/src/custom-fetch.ts: the call of `fetch` that `customFetch` makes.
use mathlib.Core.Logic.{if_neg}
use development_plan.Base.{
  String, ◌<>◌, ◌≡◌, refl, ◌≢◌, Option, true, false, ◌&&◌, ◌||◌, some, ◌==◌, string_eq, arith, inl,
  inr, Bool-cases, ap, sym, ◌∙◌, subst,
}
use development_plan.Base.Attempt.{Attempt, done, threw}
use development_plan.Client.{
  Headers, Input, text, Platform, Settings, Options, Body, Call, without_slashes, is_relative,
  set_base_url, apply_base_url, readdress, resolve_url, get_header, and_authorize, prepare,
  prepare_from, prepared_headers, resolve_method, call_with, has_body,
}
use development_plan.Client.Laws.{last_value, authorize-keeps, prepared_headers-keeps}

threw-done : {call : Call} → threw ≢ done call
threw-done e = cc

-- How a call comes about.
pub record IsMade (platform : Platform) (settings : Settings) (input : Input) (options : Options)
    (call : Call) : Type 0 where
  pub addressed : apply_base_url platform settings.base_url input ≡ done call.input
  pub method : call.method ≡ resolve_method platform call.input options.method
  pub body : call.body ≡ options.body
  pub allowed : (has_body call.body && (call.method == "GET" || call.method == "HEAD")) ≡ false
  pub headers :
      and_authorize platform settings.auth_token (prepared_headers call.input options)
      ≡ done call.headers

pub prepare-IsMade :
    (platform : Platform) (settings : Settings) (input : Input) (options : Options) (call : Call)
    → prepare platform settings input options ≡ done call
    → IsMade platform settings input options call
unfolding prepare prepare_from
prepare-IsMade platform settings input options call e =
    go (apply_base_url platform settings.base_url input) refl e
  where
    made : {a b : Call} → done a ≡ done b → a ≡ b
    made p = cc

    from :
        (i : Input) (h : Attempt Headers)
        → apply_base_url platform settings.base_url input ≡ done i
        → and_authorize platform settings.auth_token (prepared_headers i options) ≡ h
        → (has_body options.body
            && (resolve_method platform i options.method == "GET"
                || resolve_method platform i options.method == "HEAD"))
          ≡ false
        → call_with i (resolve_method platform i options.method) options.body h ≡ done call
        → IsMade platform settings input options call
    from i threw a h allowed e = absurd (cc)
    from i (done hs) a h allowed e =
        subst (IsMade platform settings input options) (made e)
          (record { addressed = a; method = refl; body = refl; allowed = allowed; headers = h })

    go :
        (a : Attempt Input)
        → apply_base_url platform settings.base_url input ≡ a
        → prepare_from platform settings options a ≡ done call
        → IsMade platform settings input options call
    go threw a e = absurd (cc)
    go (done i) a e =
        elim (Bool-cases (
          has_body options.body
          && (resolve_method platform i options.method == "GET"
              || resolve_method platform i options.method == "HEAD"))) [
                | inl refused ↦ absurd (threw-done (rw refused at e))
                | inr allowed ↦ from i _ a refl allowed (rw allowed at e)
              ]

authorized-explicit :
    (platform : Platform) (getter : Option (Attempt (Option String))) (prepared : Attempt Headers)
    (hs : Headers) (name v : String)
    → ((given : Headers) → prepared ≡ done given → get_header name given ≡ some v)
    → and_authorize platform getter prepared ≡ done hs
    → get_header name hs ≡ some v
authorized-explicit platform getter threw hs name v found e = absurd (cc)
authorized-explicit platform getter (done given) hs name v found e =
    authorize-keeps platform getter name v given hs (found given refl) e

-- Whatever the input, the settings and the token getter are: if the preparation does not throw, a
-- header of the `Headers` object that `new Headers` gives of the options reaches `fetch` with the
-- last value that this object lists under its name; neither the input's headers, nor the defaults,
-- nor the bearer token replace it.
pub prepare-explicit :
    (platform : Platform) (settings : Settings) (input : Input) (options : Options) (call : Call)
    (given : Headers) (name v : String)
    → options.headers ≡ some (done given)
    → last_value name given ≡ some v
    → prepare platform settings input options ≡ done call
    → get_header name call.headers ≡ some v
prepare-explicit platform settings input options call given name v explicit last e =
    let made = prepare-IsMade platform settings input options call e in
    authorized-explicit platform settings.auth_token (prepared_headers call.input options)
      call.headers name v
      (λ hs prepared.
        prepared_headers-keeps call.input options given hs name v explicit last prepared)
      made.headers

-- A call of `fetch` that has a body is neither a GET nor a HEAD.
pub prepare-bodiless :
    (platform : Platform) (settings : Settings) (input : Input) (options : Options) (call : Call)
    (body : Body)
    → prepare platform settings input options ≡ done call
    → call.body ≡ some body
    → (call.method ≢ "GET") × (call.method ≢ "HEAD")
prepare-bodiless platform settings input options call body e full =
    let made = prepare-IsMade platform settings input options call e in ground (arith, made.allowed)

set_base_url-some :
    (address : String) (settings : Settings)
    → without_slashes address ≢ ""
    → (set_base_url (some address) settings).base_url ≡ some (without_slashes address)
unfolding set_base_url without_slashes
set_base_url-some address settings given = elim (string_eq.dec address "") [
  | yes e ↦ absurd (given (ap without_slashes e))
  | no n ↦ rw (if_neg _ n) refl
]

apply_base_url-relative :
    (platform : Platform) (base path : String)
    → base ≢ ""
    → is_relative path ≡ true
    → apply_base_url platform (some base) (text path) ≡ done (text (base <> path))
unfolding apply_base_url readdress resolve_url
apply_base_url-relative platform base path given relative = rw relative (ground arith)

same-input : {a b : Input} → done a ≡ done b → a ≡ b
same-input e = cc

-- After `setBaseUrl` with an address that does not consist of slashes only, a call at a path that
-- starts with a slash goes to the address without the slashes at its end, followed by the path.
pub prepare-based :
    (platform : Platform) (settings : Settings) (address path : String) (options : Options)
    (call : Call)
    → without_slashes address ≢ ""
    → is_relative path ≡ true
    → prepare platform (set_base_url (some address) settings) (text path) options ≡ done call
    → call.input ≡ text (without_slashes address <> path)
prepare-based platform settings address path options call given relative e =
    let made =
      prepare-IsMade platform (set_base_url (some address) settings) (text path) options call e in
    sym (
      same-input (
        sym (
          ap (λ b. apply_base_url platform b (text path)) (set_base_url-some address settings given)
          ∙ apply_base_url-relative platform (without_slashes address) path given relative)
        ∙ made.addressed))
