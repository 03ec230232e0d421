-- ===== src/Web/App/Screens.antt =====
-- artifacts/landvault-web/src/App.tsx: the screens that are shown without a session.
use development_plan.Base.{
  String, ◌≡◌, ◌⊎◌, inl, inr, refl, sym, ap, subst, Bool, true, false, none, some, List, Bool-cases,
  [], ◌∷◌,
}
use development_plan.Web.Start.{Session}
use development_plan.Web.Auth.{Auth, fresh_auth, Report, hear_all, Shown}
use development_plan.Web.Auth.Gate.{has_restored, reported, last, require_auth-Guards}
use development_plan.Web.App.{
  Screen, sign_in, verify, not_found, Element, plain, guarded, Route, route, Wouter, IsWouter,
  routes, View, screen, waiting, redirected, gate, view, router,
}

-- The screens for everyone.
abbrev pub is_public : Screen → Bool
is_public sign_in = true
is_public verify = true
is_public not_found = true
is_public _ = false

-- A plain element is a public screen.
abbrev IsSafe : Element → Type 0
IsSafe (plain s) = is_public s ≡ true
IsSafe (guarded s) = Unit

module _ (wouter : Wouter) (laws : IsWouter wouter) where
  switch-IsSafe :
      (path : String) (element : Element) (rest : List Route) (location : String)
      → IsSafe element
      → IsSafe (wouter.switch rest location)
      → IsSafe (wouter.switch (route path element ∷ rest) location)
  switch-IsSafe path element rest location a b = elim (Bool-cases (wouter.matches path location)) [
    | inl e ↦ subst IsSafe (sym (laws.here path element rest location e)) a
    | inr e ↦ subst IsSafe (sym (laws.later path element rest location e)) b
  ]

  found-IsSafe : (location : String) → IsSafe (wouter.switch routes location)
  unfolding routes
  found-IsSafe location = switch-IsSafe _ _ _ location refl (
      switch-IsSafe _ _ _ location refl (
        switch-IsSafe _ _ _ location tt (
          switch-IsSafe _ _ _ location tt (
            switch-IsSafe _ _ _ location tt (
              switch-IsSafe _ _ _ location tt
                (subst IsSafe (sym (laws.last (plain not_found) [] location)) refl))))))

  at_sign_in :
      (auth : Auth)
      → wouter.matches "/sign-in" "/sign-in" ≡ true
      → router wouter auth "/sign-in" ≡ screen sign_in
  unfolding router view routes
  at_sign_in auth e = ap (view auth) (laws.here _ _ _ "/sign-in" e)

-- What a page may be after some reports of the session.
abbrev pub IsAllowed : Wouter → List Report → View → Type 0
IsAllowed wouter reports (screen s) =
    (is_public s ≡ true)
    ⊎ ((has_restored reports ≡ true)
        × ((session : Session) × (last none (reported reports) ≡ some session)))
IsAllowed wouter reports waiting = has_restored reports ≡ false
IsAllowed wouter reports (redirected path) =
    (has_restored reports ≡ true)
    × (last none (reported reports) ≡ none)
    × (router wouter (hear_all reports fresh_auth) path ≡ screen sign_in)

module _ (wouter : Wouter) (laws : IsWouter wouter) where
  view-IsAllowed :
      (reports : List Report) (element : Element)
      → wouter.matches "/sign-in" "/sign-in" ≡ true
      → IsSafe element
      → IsAllowed wouter reports (view (hear_all reports fresh_auth) element)
  unfolding view
  view-IsAllowed reports (plain s) e safe = inl safe
  view-IsAllowed reports (guarded s) e safe =
      let allowed : Shown → Type 0 = λ shown. IsAllowed wouter reports (gate shown s) in
      elim (require_auth-Guards reports) [
        | inl (restored, shown) ↦ subst allowed (sym shown) restored
        | inr (inl (restored, ended, shown)) ↦
            subst allowed (sym shown)
              (restored, ended, at_sign_in wouter laws (hear_all reports fresh_auth) e)
        | inr (inr (restored, session, shown)) ↦ subst allowed (sym shown) (inr (restored, session))
      ]

  -- With a wouter that shows the first route that matches, and where the path of the sign-in matches
  -- itself: whatever is reported of the session, and at every location, a screen is public, or the
  -- stored session has been restored and the last report has a session; the page waits only before
  -- that, and it redirects only if the last report has none, to a location that shows the sign-in.
  pub router-IsAllowed :
      (reports : List Report) (location : String)
      → wouter.matches "/sign-in" "/sign-in" ≡ true
      → IsAllowed wouter reports (router wouter (hear_all reports fresh_auth) location)
  unfolding router
  router-IsAllowed reports location e =
      view-IsAllowed reports (wouter.switch routes location) e (found-IsSafe wouter laws location)
