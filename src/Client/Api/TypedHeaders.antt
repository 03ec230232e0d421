-- ===== src/Client/Api/TypedHeaders.antt =====
-- lib/api-client-react/src/generated/api.ts: the headers of a call with a body.
use mathlib.Core.Logic.{if_pos, if_neg}
use development_plan.Base.{
  String, ◌≡◌, refl, ap, ◌∙◌, Option, none, some, List, [], ◌∷◌, ◌==◌, string_eq, if◌then◌else◌,
  arith,
}
use development_plan.Client.{get_header}
use development_plan.Client.Laws.{last_value, or_then, or_then_assoc}
use development_plan.Client.Api.{
  HeadersInit, object, Runtime, set_property, set_properties, own_properties, typed_headers,
}

get_header-set_property :
    (name k v : String) (properties : List (String × String))
    → get_header name (set_property k v properties)
      ≡ (if k == name then some v else get_header name properties)
unfolding get_header set_property
get_header-set_property name k v [] = refl
get_header-set_property name k v ((j, w) ∷ properties) =
    let rest = get_header-set_property name k v properties in
    elim (string_eq.dec j k) [
      | yes e ↦ rw (if_pos _ e) (ground (arith, e))
      | no n ↦ rw (if_neg _ n) (ground (arith, n, rest))
    ]

get_header-set_properties :
    (name : String) (source properties : List (String × String))
    → get_header name (set_properties source properties)
      ≡ or_then (last_value name source) (get_header name properties)
get_header-set_properties name [] properties = refl
get_header-set_properties name ((k, v) ∷ source) properties =
    get_header-set_properties name source (set_property k v properties)
    ∙ ap (or_then (last_value name source)) (get_header-set_property name k v properties)
    ∙ or_then_assoc (last_value name source) (k == name) v (get_header name properties)

-- The headers of a call with a body hold, under each name, the last value that the caller's headers
-- have as a property of that name, and else, under `Content-Type`, the type of the body, and nothing
-- more.
pub typed_headers-own :
    {Value : Type 0} (runtime : Runtime Value) (type : String) (given : Option HeadersInit)
    (name : String)
    → (properties : List (String × String)) × (typed_headers runtime type given ≡ object properties)
      × (get_header name properties
          ≡ or_then
              (last_value name (own_properties runtime given))
              (if "Content-Type" == name then some type else none))
unfolding typed_headers get_header
typed_headers-own runtime type given name = (
  set_properties (own_properties runtime given) (("Content-Type", type) ∷ []),
  refl,
  get_header-set_properties name (own_properties runtime given) (("Content-Type", type) ∷ []),
)
