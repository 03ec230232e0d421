-- ===== src/Client/Api/Sending/Refusals.antt =====
-- lib/api-client-react/src: when a call of the generated client is refused before it is sent.
use mathlib.Core.Logic.{if_pos}
use package.text.Mathlib.TextEquality.{eq_iff}
use development_plan.Base.{
  String, ◌≡◌, ◌≢◌, ◌⊎◌, ◌↔◌, inl, inr, refl, sym, ap, ◌∙◌, Bool, true, false, ◌&&◌, ◌||◌, Option,
  some, ◌==◌, string_eq, if◌then◌else◌, arith, Bool-cases, if_of_true, if_of_false,
}
use development_plan.Base.Attempt.{Attempt, done, threw}
use development_plan.Client.{
  Headers, Input, text, Platform, Settings, Call, is_relative, resolve_method, and_authorize,
  prepare, prepare_from, prepared_headers, call_with, has_body,
}
use development_plan.Client.Api.{Runtime, RequestOptions, Sent, spread, read_options}
use development_plan.Client.Api.Operations.{Operation, sent}
use development_plan.Client.Api.Forms.{Reads, Writes, sent-IsFormed}
use development_plan.Client.Api.Sending.{
  perform, KeepsMethods, with_base, apply_base_url-path, resolved,
}

-- Where nothing throws, `customFetch` goes on to `fetch` unless a body comes with a GET or HEAD.
prepare-eq :
    {Value : Type 0} (runtime : Runtime Value) (platform : Platform) (settings : Settings)
    (s : Sent) (m : String) (headers : Headers)
    → is_relative s.url ≡ true
    → ((i : Input) → resolve_method platform i s.options.method ≡ m)
    → and_authorize platform settings.auth_token (
        prepared_headers
          (text (with_base settings.base_url s.url))
          (read_options runtime s.options))
      ≡ done headers
    → prepare platform settings (text s.url) (read_options runtime s.options) ≡ (
        if has_body s.options.body && (m == "GET" || m == "HEAD")
        then threw
        else done (record {
          input = text (with_base settings.base_url s.url);
          method = m;
          headers = headers;
          body = s.options.body;
        }))
unfolding prepare prepare_from read_options
prepare-eq runtime platform settings s m headers relative resolves authorized =
    let options = read_options runtime s.options in
    let input : Input = text (with_base settings.base_url s.url) in
    ap (prepare_from platform settings options)
      (apply_base_url-path platform settings.base_url s.url relative)
    ∙ ap
        (λ (k : String).
          if has_body s.options.body && (k == "GET" || k == "HEAD")
          then threw
          else call_with input k s.options.body
              (and_authorize platform settings.auth_token (prepared_headers input options)))
        (resolves input)
    ∙ ap
        (λ h.
          if has_body s.options.body && (m == "GET" || m == "HEAD")
          then threw
          else call_with input m s.options.body h)
        authorized

stated-eq : {a b : String} {o : Option String} → o ≡ some a → o ≡ some b → a ≡ b
stated-eq p q = cc

true-false : true ≢ false
true-false e = cc

and-true : {a b : Bool} → a ≡ true → b ≡ true → (a && b) ≡ true
and-true p q = rw (p, q) refl

false-and : {a : Bool} (b : Bool) → a ≡ false → (a && b) ≡ false
false-and b p = rw p refl

and-false : (a : Bool) {b : Bool} → b ≡ false → (a && b) ≡ false
and-false true e = e
and-false false e = refl

done-threw : {call : Call} → done call ≢ threw
done-threw e = cc

read_tested : (m : String) → m ≡ "GET" → (m == "GET" || m == "HEAD") ≡ true
read_tested m e = rw (if_pos _ e) refl

written_tested :
    (s : Sent) (m : String)
    → Writes s
    → s.options.method ≡ some m
    → ((m == "GET" || m == "HEAD") ≡ false) × (s.options.method ≢ some "GET")
unfolding string_eq
written_tested s m writes stated = elim writes [
  | inl p ↦ written "POST" p refl (ground (arith, eq_iff "POST" "GET"))
  | inr (inl p) ↦ written "PATCH" p refl (ground (arith, eq_iff "PATCH" "GET"))
  | inr (inr p) ↦ written "PUT" p refl (ground (arith, eq_iff "PUT" "GET"))
]
  where
    written :
        (k : String)
        → s.options.method ≡ some k
        → (k == "GET" || k == "HEAD") ≡ false
        → k ≢ "GET"
        → ((m == "GET" || m == "HEAD") ≡ false) × (s.options.method ≢ some "GET")
    written k p other n = (
      ap (λ (j : String). j == "GET" || j == "HEAD") (stated-eq stated p) ∙ other,
      λ g. n (stated-eq p g),
    )

-- Whether a request is refused, by its method and body.
refusal :
    (options : Option RequestOptions) (s : Sent) (m : String) (call : Call) {outcome : Attempt Call}
    → Reads options s ⊎ Writes s
    → s.options.method ≡ some m
    → outcome
      ≡ (if has_body s.options.body && (m == "GET" || m == "HEAD") then threw else done call)
    → (outcome ≡ threw)
      ↔ ((s.options.method ≡ some "GET") × (has_body (spread options).body ≡ true))
refusal options s m call {outcome} (inl (get, body)) stated e =
    let tested = read_tested m (stated-eq stated get) in
    elim (Bool-cases (has_body s.options.body)) [
      | inl full ↦
          let refused : outcome ≡ threw = e ∙ if_of_true _ _ (and-true full tested) in
          (λ t. (get, sym (ap has_body body) ∙ full), λ h. refused)
      | inr bare ↦
          let goes : outcome ≡ done call = e ∙ if_of_false _ _ (false-and _ bare) in
          (
            λ t. absurd (done-threw (sym goes ∙ t)),
            λ h. absurd (true-false (sym h.1 ∙ sym (ap has_body body) ∙ bare)),
          )
    ]
refusal options s m call {outcome} (inr writes) stated e =
    let tested = written_tested s m writes stated in
    let goes : outcome ≡ done call =
      e ∙ if_of_false _ _ (and-false (has_body s.options.body) tested.0) in
    (λ t. absurd (done-threw (sym goes ∙ t)), λ h. absurd (tested.1 h.0))

-- Where `toUpperCase` keeps the methods and the headers come about, that is, neither `new Headers` of
-- the options nor the token getter nor setting the token throws: a call of the client throws before
-- it comes to `fetch` exactly when its method is GET and the caller's options have a body.
pub perform-threw :
    {Value : Type 0} (runtime : Runtime Value) (platform : Platform) (settings : Settings)
    (operation : Operation Value) (options : Option RequestOptions) (headers : Headers)
    → KeepsMethods platform
    → and_authorize platform settings.auth_token (
        prepared_headers
          (text (with_base settings.base_url (sent runtime operation options).url))
          (read_options runtime (sent runtime operation options).options))
      ≡ done headers
    → (perform runtime platform settings operation options ≡ threw) ↔ (
        ((sent runtime operation options).options.method ≡ some "GET")
        × (has_body (spread options).body ≡ true))
unfolding perform
perform-threw runtime platform settings operation options headers keeps authorized =
    let s = sent runtime operation options in
    let formed = sent-IsFormed runtime operation options in
    let (m, (stated, resolves)) = resolved platform options s keeps formed in
    let e = prepare-eq runtime platform settings s m headers formed.0 resolves authorized in
    refusal options s m _ formed.1 stated e
