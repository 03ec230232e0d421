-- ===== src/Web/App.antt =====
-- artifacts/landvault-web/src/App.tsx: which screen the application shows at a location.
pub mod Screens
use development_plan.Base.{String, Bool, true, false, Option, none, some, List, [], ◌∷◌, ◌≡◌}
use development_plan.Web.Auth.{Auth, Shown, spinner, redirect, children, require_auth}

pub data Screen : Type 0 where
  sign_in verify dashboard parcels_registry parcel_new parcel_detail not_found : Screen

-- What a route holds: a screen, or one inside RequireAuth.
pub data Element : Type 0 where
  plain guarded : Screen → Element

-- `Route`, with a path or without.
pub data Route : Type 0 where
  route : String → Element → Route
  otherwise : Element → Route

-- `Switch` of wouter: what the routes show at a location. `matches` says whether a path matches it.
pub record Wouter : Type 0 where
  pub matches : String → String → Bool
  pub switch : List Route → String → Element

-- As wouter documents it, the first route that matches is shown, and one without a path matches.
pub record IsWouter (w : Wouter) : Type 0 where
  pub here :
      (path : String) (element : Element) (rest : List Route) (location : String)
      → w.matches path location ≡ true
      → w.switch (route path element ∷ rest) location ≡ element
  pub later :
      (path : String) (element : Element) (rest : List Route) (location : String)
      → w.matches path location ≡ false
      → w.switch (route path element ∷ rest) location ≡ w.switch rest location
  pub last :
      (element : Element) (rest : List Route) (location : String)
      → w.switch (otherwise element ∷ rest) location ≡ element

unfoldable pub routes : List Route
routes =
    route "/sign-in" (plain sign_in)
    ∷ route "/verify" (plain verify)
    ∷ route "/" (guarded dashboard)
    ∷ route "/parcels" (guarded parcels_registry)
    ∷ route "/parcels/new" (guarded parcel_new)
    ∷ route "/parcels/:id" (guarded parcel_detail)
    ∷ otherwise (plain not_found)
    ∷ []

-- What stands on the page.
pub data View : Type 0 where
  screen : Screen → View
  waiting : View
  redirected : String → View

-- A screen inside RequireAuth, by what that shows.
abbrev pub gate : Shown → Screen → View
gate spinner s = waiting
gate (redirect path) s = redirected path
gate children s = screen s

unfoldable pub view : Auth → Element → View
view auth (plain s) = screen s
view auth (guarded s) = gate (require_auth auth) s

-- `Router`
unfoldable pub router : Wouter → Auth → String → View
router wouter auth location = view auth (wouter.switch routes location)
