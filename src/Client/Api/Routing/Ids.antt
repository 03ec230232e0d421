-- ===== src/Client/Api/Routing/Ids.antt =====
-- Routes that are found whatever the id, if it stays one segment.
use Prim.Native.Char.{Char}
use development_plan.Base.{String, ◌<>◌, ◌≡◌, refl, ap, ◌∙◌, some, List, [], ◌∷◌, ◌++◌, true}
use development_plan.Mockup.Texts.{split}
use development_plan.Client.Api.Paths.{
  lacks, before_query, segments, IsPlain, segments-last, segments-middle,
}
use development_plan.Client.Api.Routes.{find_route, routes}

abbrev pub Found : String → List String → String → List String → Type 0
Found method path name found = find_route routes method path ≡ some (name, found)

-- An id at the end of the address.
pub at_last :
    (method name address : String) (dirs : List String) (id : String)
    → ((c : Char) (s : String)
        → Found method (dirs ++ (String.◌∷◌ c s ∷ [])) name (String.◌∷◌ c s ∷ []))
    → IsPlain id
    → lacks "?" address ≡ true
    → split "/" address ≡ dirs ++ ("" ∷ [])
    → Found method (segments (address <> id)) name (id ∷ [])
at_last method name address dirs String.[] found plain clean e = absurd (plain.0 refl)
at_last method name address dirs (String.◌∷◌ c s) found plain clean e =
    ap (find_route routes method) (segments-last address dirs (String.◌∷◌ c s) clean e plain)
    ∙ found c s

-- An id before an action.
pub at_middle :
    (method name address : String) (dirs : List String) (id action : String) (actions : List String)
    → ((c : Char) (s : String)
        → Found method (dirs ++ (String.◌∷◌ c s ∷ actions)) name (String.◌∷◌ c s ∷ []))
    → IsPlain id
    → lacks "?" address ≡ true
    → split "/" address ≡ dirs ++ ("" ∷ [])
    → split "/" (before_query action) ≡ "" ∷ actions
    → Found method (segments (address <> id <> action)) name (id ∷ [])
at_middle method name address dirs String.[] action actions found plain clean e a =
    absurd (plain.0 refl)
at_middle method name address dirs (String.◌∷◌ c s) action actions found plain clean e a =
    ap (find_route routes method)
      (segments-middle address dirs (String.◌∷◌ c s) action actions clean e a plain)
    ∙ found c s
