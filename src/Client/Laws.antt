-- ===== src/Client/Laws.antt =====
-- lib/api-client-react/src/custom-fetch.ts: base addresses, headers and tokens.
use development_plan.Base.{
  String, ◌<>◌, ◌≡◌, refl, ◌≢◌, Bool, true, false, not, ◌&&◌, Option, none, some, [], ◌∷◌, ◌++◌,
  keep, ◌==◌, string_eq, if◌then◌else◌, arith, ◌⊎◌, inl, inr, Bool-cases, ap, sym, ◌∙◌, if_of_true,
  if_of_false,
}
use development_plan.Base.Attempt.{Attempt, done, threw}
use development_plan.Client.{
  Headers, Input, Options, is_slash, without_slashes, get_header, has_header, set_header, set_all,
  merge_headers, authorize, attach, with_token, set_value, prepared_headers, own_headers,
  default_header, with_defaults, Platform,
}

done-injective : {a b : Headers} → done a ≡ done b → a ≡ b
done-injective e = cc

-- The text ends with a slash.
abbrev pub ends_with_slash : String → Bool
ends_with_slash String.[] = false
ends_with_slash (String.◌∷◌ c s) =
    let rest = ends_with_slash s in if s == "" then is_slash c else rest

-- An address without the slashes at its end does not end with a slash.
pub without_slashes-trimmed : (s : String) → ends_with_slash (without_slashes s) ≡ false
unfolding without_slashes
without_slashes-trimmed String.[] = refl
without_slashes-trimmed (String.◌∷◌ c s) = ground (arith, without_slashes-trimmed s)

get-append :
    (name other value : String) (hs : Headers)
    → get_header name (keep (λ h. not (h.0 == other)) hs ++ ((other, value) ∷ []))
      ≡ (if other == name then some value else get_header name hs)
unfolding get_header
get-append name other value [] = refl
get-append name other value ((k, v) ∷ hs) = ground (arith, get-append name other value hs)

-- A header that is set has the new value, and every other header the value that it had.
pub get_header-set_header :
    (name other value : String) (hs : Headers)
    → get_header name (set_header other value hs)
      ≡ (if other == name then some value else get_header name hs)
unfolding set_header
get_header-set_header name other value hs = get-append name other value hs

has-get :
    (name : String) (hs : Headers)
    → (has_header name hs ≡ false) ⊎ ((v : String) × (get_header name hs ≡ some v))
unfolding has_header get_header
has-get name [] = inl refl
has-get name ((k, v) ∷ hs) = elim (string_eq.dec k name) [
  | yes e ↦ inr (v, ground arith)
  | no n ↦ elim (has-get name hs) [
    | inl missing ↦ inl (ground arith)
    | inr (w, found) ↦ inr (w, ground arith)
  ]
]

has-some :
    (name v : String) (hs : Headers) → get_header name hs ≡ some v → has_header name hs ≢ false
unfolding get_header has_header
has-some name v [] found missing = absurd (cc)
has-some name v ((k, w) ∷ hs) found missing = ground (arith, has-some name v hs)

-- An authorization header that is there stays as it is, whatever the token getter would give, and
-- the getter's failure does no harm.
pub authorize-explicit :
    (platform : Platform) (getter : Option (Attempt (Option String))) (hs : Headers)
    → has_header "authorization" hs ≡ true
    → authorize platform getter hs ≡ done hs
unfolding authorize
authorize-explicit platform none hs given = refl
authorize-explicit platform (some getter) hs given = rw given refl

abbrev pub or_then : Option String → Option String → Option String
or_then (some v) other = some v
or_then none other = other

-- The value that the last entry of a name has.
abbrev pub last_value : String → Headers → Option String
last_value name [] = none
last_value name ((k, v) ∷ hs) = or_then (last_value name hs) (if k == name then some v else none)

pub or_then_assoc :
    (a : Option String) (b : Bool) (v : String) (c : Option String)
    → or_then a (if b then some v else c) ≡ or_then (or_then a (if b then some v else none)) c
or_then_assoc (some w) b v c = refl
or_then_assoc none true v c = refl
or_then_assoc none false v c = refl

get_header-set_all :
    (name : String) (source hs : Headers)
    → get_header name (set_all source hs) ≡ or_then (last_value name source) (get_header name hs)
unfolding set_all
get_header-set_all name [] hs = refl
get_header-set_all name ((k, v) ∷ source) hs =
    get_header-set_all name source (set_header k v hs)
    ∙ ap (or_then (last_value name source)) (get_header-set_header name k v hs)
    ∙ or_then_assoc (last_value name source) (k == name) v (get_header name hs)

default_header-keeps :
    (wanted : Bool) (name other value v : String) (hs : Headers)
    → get_header name hs ≡ some v
    → get_header name (default_header wanted other value hs) ≡ some v
default_header-keeps wanted name other value v hs found =
    elim (Bool-cases (wanted && not (has_header other hs))) [
      | inl absent ↦
          rw absent
            (get_header-set_header name other value hs ∙ go (string_eq.dec other name) absent)
      | inr present ↦ rw present found
    ]
  where
    go :
        (d : Dec (other ≡ name))
        → (wanted && not (has_header other hs)) ≡ true
        → (if other == name then some value else get_header name hs) ≡ some v
    go (yes e) absent =
        absurd (has-some other v hs (ap (λ n. get_header n hs) e ∙ found) (ground arith))
    go (no n) absent = ground arith

set_header-keeps :
    (name other value v : String) (hs : Headers)
    → has_header other hs ≡ false
    → get_header name hs ≡ some v
    → get_header name (set_header other value hs) ≡ some v
set_header-keeps name other value v hs absent found =
    get_header-set_header name other value hs ∙ go (string_eq.dec other name)
  where
    go :
        (d : Dec (other ≡ name))
        → (if other == name then some value else get_header name hs) ≡ some v
    go (yes e) = absurd (has-some other v hs (ap (λ n. get_header n hs) e ∙ found) absent)
    go (no n) = ground arith

set_value-keeps :
    (stored : Attempt String) (name v : String) (hs hs' : Headers)
    → has_header "authorization" hs ≡ false
    → get_header name hs ≡ some v
    → set_value "authorization" stored hs ≡ done hs'
    → get_header name hs' ≡ some v
set_value-keeps threw name v hs hs' absent found e = absurd (cc)
set_value-keeps (done value) name v hs hs' absent found e =
    ap (get_header name) (sym (done-injective e))
    ∙ set_header-keeps name "authorization" value v hs absent found

with_token-keeps :
    (platform : Platform) (token : Option String) (name v : String) (hs hs' : Headers)
    → has_header "authorization" hs ≡ false
    → get_header name hs ≡ some v
    → with_token platform token hs ≡ done hs'
    → get_header name hs' ≡ some v
unfolding with_token
with_token-keeps platform none name v hs hs' absent found e =
    ap (get_header name) (sym (done-injective e)) ∙ found
with_token-keeps platform (some token) name v hs hs' absent found e =
    elim (Bool-cases (token == "")) [
      | inl empty ↦
          ap (get_header name) (sym (done-injective (sym (if_of_true _ _ empty) ∙ e))) ∙ found
      | inr given ↦
          set_value-keeps (platform.header_value ("Bearer " <> token)) name v hs hs' absent found
            (sym (if_of_false _ _ given) ∙ e)
    ]

attach-keeps :
    (platform : Platform) (got : Attempt (Option String)) (name v : String) (hs hs' : Headers)
    → has_header "authorization" hs ≡ false
    → get_header name hs ≡ some v
    → attach platform got hs ≡ done hs'
    → get_header name hs' ≡ some v
unfolding attach
attach-keeps platform threw name v hs hs' absent found e = absurd (cc)
attach-keeps platform (done token) name v hs hs' absent found e =
    with_token-keeps platform token name v hs hs' absent found e

pub authorize-keeps :
    (platform : Platform) (getter : Option (Attempt (Option String))) (name v : String)
    (hs hs' : Headers)
    → get_header name hs ≡ some v
    → authorize platform getter hs ≡ done hs'
    → get_header name hs' ≡ some v
unfolding authorize
authorize-keeps platform none name v hs hs' found e =
    ap (get_header name) (sym (done-injective e)) ∙ found
authorize-keeps platform (some getter) name v hs hs' found e =
    elim (Bool-cases (has_header "authorization" hs)) [
      | inl there ↦
          ap (get_header name) (sym (done-injective (sym (if_of_true _ _ there) ∙ e))) ∙ found
      | inr absent ↦
          attach-keeps platform getter name v hs hs' absent found (sym (if_of_false _ _ absent) ∙ e)
    ]

merged-last :
    (own : Option (Attempt Headers)) (given hs : Headers) (name v : String)
    → last_value name given ≡ some v
    → merge_headers (own ∷ some (done given) ∷ []) [] ≡ done hs
    → get_header name hs ≡ some v
unfolding merge_headers
merged-last none given hs name v last e =
    ap (get_header name) (sym (done-injective e))
    ∙ get_header-set_all name given []
    ∙ ap (λ x. or_then x (get_header name [])) last
merged-last (some threw) given hs name v last e = absurd (cc)
merged-last (some (done own)) given hs name v last e =
    ap (get_header name) (sym (done-injective e))
    ∙ get_header-set_all name given (set_all own [])
    ∙ ap (λ x. or_then x (get_header name (set_all own []))) last

with_defaults-keeps :
    (options : Options) (merged : Attempt Headers) (hs : Headers) (name v : String)
    → ((found : Headers) → merged ≡ done found → get_header name found ≡ some v)
    → with_defaults options merged ≡ done hs
    → get_header name hs ≡ some v
with_defaults-keeps options threw hs name v keeps e = absurd (cc)
with_defaults-keeps options (done merged) hs name v keeps e =
    ap (get_header name) (sym (done-injective e))
    ∙ default_header-keeps _ name "accept" _ v _
        (default_header-keeps _ name "content-type" _ v _ (keeps merged refl))

pub prepared_headers-keeps :
    (input : Input) (options : Options) (given hs : Headers) (name v : String)
    → options.headers ≡ some (done given)
    → last_value name given ≡ some v
    → prepared_headers input options ≡ done hs
    → get_header name hs ≡ some v
unfolding prepared_headers
prepared_headers-keeps input options given hs name v explicit last e =
    with_defaults-keeps options (merge_headers (own_headers input ∷ options.headers ∷ []) []) hs
      name v
      (λ found merged.
        merged-last (own_headers input) given found name v last
          (ap (λ h. merge_headers (own_headers input ∷ h ∷ []) []) (sym explicit) ∙ merged))
      e
