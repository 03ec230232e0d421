-- ===== src/Web/Start.antt =====
-- artifacts/landvault-web/src: main.tsx imports lib/auth-context.tsx with lib/supabase-client.ts, by
-- way of App.tsx, and then lib/api-base-url.ts, which give the HTTP client its token and its base
-- address.
use development_plan.Base.{
  String, ◌<>◌, ◌≡◌, ◌≢◌, refl, sym, ap, ◌∙◌, Option, none, some, ◌==◌, string_eq, if◌then◌else◌,
  if_of_true, if_of_false, same-true, differ-false,
}
use development_plan.Base.Attempt.{Attempt, done, threw}
use development_plan.Client.{
  Input, text, Platform, Settings, Call, without_slashes, set_base_url, set_auth_token_getter,
}
use development_plan.Client.Calls.{prepare-IsMade}
use development_plan.Client.Api.{Runtime, RequestOptions, read_options}
use development_plan.Client.Api.Operations.{Operation, sent}
use development_plan.Client.Api.Forms.{sent-IsFormed}
use development_plan.Client.Api.Sending.{perform, with_base, apply_base_url-path}

-- The session of Supabase, by its access token.
pub record Session : Type 0 where
  pub access_token : String

-- `data.session?.access_token ?? null`
unfoldable pub access_token_of : Attempt (Option Session) → Attempt (Option String)
access_token_of threw = threw
access_token_of (done none) = done none
access_token_of (done (some session)) = done (some session.access_token)

-- The settings of the client before anything is set.
unfoldable pub unset_client : Settings
unset_client = record { base_url = none; auth_token = none }

-- `setBaseUrl(apiBaseUrl)`, if the variable is there.
unfoldable pub set_api_base_url : Option String → Settings → Attempt Settings
set_api_base_url none settings = threw
set_api_base_url (some api_base_url) settings =
    if api_base_url == "" then threw else done (set_base_url (some api_base_url) settings)

-- A variable that is there and not empty.
unfoldable pub truthy : Option String → Option String
truthy none = none
truthy (some s) = if s == "" then none else some s

-- lib/supabase-client.ts: what `createClient` is called with.
unfoldable pub supabase_client : Option String → Option String → Attempt (String × String)
supabase_client url anon_key = elim (truthy url) [
  | none ↦ threw
  | some u ↦ elim (truthy anon_key) [ none ↦ threw | some k ↦ done (u, k) ]
]

-- The variables of the build.
pub record Environment : Type 0 where
  pub supabase_url : Option String
  pub supabase_anon_key : Option String
  pub api_base_url : Option String

-- The imports of main.tsx, by the variables and what `getSession` gives when it is called.
unfoldable pub start : Environment → Attempt (Option Session) → Attempt Settings
start env get_session = elim (supabase_client env.supabase_url env.supabase_anon_key) [
  | threw ↦ threw
  | done client ↦
      set_api_base_url env.api_base_url
        (set_auth_token_getter (some (access_token_of get_session)) unset_client)
]

same_input : {a b : Input} → done a ≡ done b → a ≡ b
same_input e = cc

same_settings : {a b : Settings} → done a ≡ done b → a ≡ b
same_settings e = cc

threw-done : {s : Settings} → threw ≢ done s
threw-done e = cc

set_api_base_url-base :
    (address : String) (settings started : Settings)
    → set_api_base_url (some address) settings ≡ done started
    → started.base_url ≡ some (without_slashes address)
unfolding set_api_base_url set_base_url
set_api_base_url-base address settings started e = elim (string_eq.dec address "") [
  | yes p ↦ absurd (threw-done (sym (if_of_true _ _ (same-true p)) ∙ e))
  | no n ↦
      let test = differ-false n in
      sym (ap (λ (s : Settings). s.base_url) (same_settings (sym (if_of_false _ _ test) ∙ e)))
      ∙ if_of_false _ _ test
]

set-base :
    (api_base_url : Option String) (unset settings : Settings)
    → set_api_base_url api_base_url unset ≡ done settings
    → (address : String) × (api_base_url ≡ some address)
      × (settings.base_url ≡ some (without_slashes address))
unfolding set_api_base_url
set-base none unset settings e = absurd (threw-done e)
set-base (some address) unset settings e =
    (address, refl, set_api_base_url-base address unset settings e)

start-base :
    (env : Environment) (get_session : Attempt (Option Session)) (settings : Settings)
    → start env get_session ≡ done settings
    → ((client : String × String) × (supabase_client env.supabase_url env.supabase_anon_key
          ≡ done client))
      × ((address : String) × (env.api_base_url ≡ some address)
          × (settings.base_url ≡ some (without_slashes address)))
unfolding start
start-base env get_session settings e =
    from (supabase_client env.supabase_url env.supabase_anon_key) refl e
  where
    from :
        (client : Attempt (String × String))
        → supabase_client env.supabase_url env.supabase_anon_key ≡ client
        → (elim client as (λ _. Attempt Settings) [
          | threw ↦ threw
          | done c ↦
              set_api_base_url env.api_base_url
                (set_auth_token_getter (some (access_token_of get_session)) unset_client)
        ])
          ≡ done settings
        → ((client : String × String) × (supabase_client env.supabase_url env.supabase_anon_key
              ≡ done client))
          × ((address : String) × (env.api_base_url ≡ some address)
              × (settings.base_url ≡ some (without_slashes address)))
    from threw same h = absurd (threw-done h)
    from (done c) same h = (
      (c, same),
      set-base env.api_base_url
          (set_auth_token_getter (some (access_token_of get_session)) unset_client) settings h,
    )

-- If the application starts, then its variables are there, and a call of the generated client that
-- comes to a call of `fetch` makes it at the address of the API, without the slashes at its end,
-- followed by the address of the call.
pub start-based :
    {Value : Type 0} (runtime : Runtime Value) (platform : Platform) (env : Environment)
    (get_session : Attempt (Option Session)) (settings : Settings) (operation : Operation Value)
    (options : Option RequestOptions) (call : Call)
    → start env get_session ≡ done settings
    → perform runtime platform settings operation options ≡ done call
    → ((client : String × String) × (supabase_client env.supabase_url env.supabase_anon_key
          ≡ done client))
      × ((address : String) × (env.api_base_url ≡ some address)
          × (call.input ≡ text (without_slashes address <> (sent runtime operation options).url)))
unfolding perform
start-based runtime platform env get_session settings operation options call started e =
    let request = sent runtime operation options in
    let (client, (address, given, base)) = start-base env get_session settings started in
    let made =
      prepare-IsMade platform settings (text request.url) (read_options runtime request.options)
        call e in
    (
      client,
      (
        address,
        given,
        same_input (
              sym made.addressed
              ∙ apply_base_url-path platform settings.base_url request.url
                  (sent-IsFormed runtime operation options).0)
            ∙ ap (λ b. text (with_base b request.url)) base,
      ),
    )
