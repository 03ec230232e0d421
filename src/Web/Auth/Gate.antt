-- ===== src/Web/Auth/Gate.antt =====
-- artifacts/landvault-web/src: when RequireAuth shows a governed screen.
use development_plan.Base.{
  ◌≡◌, refl, ap, ◌∙◌, Bool, true, false, Option, none, some, List, [], ◌∷◌, ◌⊎◌, inl, inr,
  Bool-cases, Option-cases,
}
use development_plan.Web.Start.{Session}
use development_plan.Web.Auth.{
  Auth, fresh_auth, Report, restored, changed, rejected, set_session, set_is_loading, hear,
  hear_all, spinner, redirect, children, require_auth,
}

-- The sessions that are reported, in order.
abbrev pub reported : List Report → List (Option Session)
reported [] = []
reported (restored s ∷ reports) = s ∷ reported reports
reported (changed s ∷ reports) = s ∷ reported reports
reported (rejected ∷ reports) = reported reports

-- The last of a list, or what stands for an empty one.
abbrev pub last : {A : Type 0} → A → List A → A
last a [] = a
last a (b ∷ bs) = last b bs

abbrev pub has_restored : List Report → Bool
has_restored [] = false
has_restored (restored s ∷ reports) = true
has_restored (changed s ∷ reports) = has_restored reports
has_restored (rejected ∷ reports) = has_restored reports

-- Loading that goes on after the reports.
abbrev still : Bool → List Report → Bool
still loading reports = elim (has_restored reports) [ true ↦ false | false ↦ loading ]

still-false : (reports : List Report) → still false reports ≡ false
still-false reports = by_restored (has_restored reports)
  where
    by_restored : (b : Bool) → (elim b as (λ _. Bool) [ true ↦ false | false ↦ false ]) ≡ false
    by_restored true = refl
    by_restored false = refl

hear_all-session :
    (reports : List Report) (auth : Auth)
    → (hear_all reports auth).session ≡ last auth.session (reported reports)
unfolding hear_all hear set_session set_is_loading
hear_all-session [] auth = refl
hear_all-session (restored s ∷ reports) auth =
    hear_all-session reports (record auth { session = s; is_loading = false })
hear_all-session (changed s ∷ reports) auth = hear_all-session reports (record auth { session = s })
hear_all-session (rejected ∷ reports) auth = hear_all-session reports auth

hear_all-is_loading :
    (reports : List Report) (auth : Auth)
    → (hear_all reports auth).is_loading ≡ still auth.is_loading reports
unfolding hear_all hear set_session set_is_loading
hear_all-is_loading [] auth = refl
hear_all-is_loading (restored s ∷ reports) auth =
    hear_all-is_loading reports (record auth { session = s; is_loading = false })
    ∙ still-false reports
hear_all-is_loading (changed s ∷ reports) auth =
    hear_all-is_loading reports (record auth { session = s })
hear_all-is_loading (rejected ∷ reports) auth = hear_all-is_loading reports auth

require_auth-cases :
    (auth : Auth) (loading : Bool) (session : Option Session)
    → auth.is_loading ≡ loading
    → auth.session ≡ session
    → require_auth auth ≡ require_auth (record { session = session; is_loading = loading })
require_auth-cases auth loading session l s =
    ap (λ b. require_auth (record { session = auth.session; is_loading = b })) l
    ∙ ap (λ o. require_auth (record { session = o; is_loading = loading })) s

still-restored :
    (reports : List Report) (b : Bool)
    → has_restored reports ≡ b
    → still true reports ≡ elim b [ true ↦ false | false ↦ true ]
still-restored reports b e = ap (λ c. elim c as (λ _. Bool) [ true ↦ false | false ↦ true ]) e

-- Whatever is reported of the session: a governed screen waits until the stored session has been
-- restored; from then on it is shown if the last report has a session, and else the visitor is sent
-- to the sign-in.
pub require_auth-Guards :
    (reports : List Report)
    → ((has_restored reports ≡ false) × (require_auth (hear_all reports fresh_auth) ≡ spinner))
      ⊎ ((has_restored reports ≡ true)
          × (last none (reported reports) ≡ none)
          × (require_auth (hear_all reports fresh_auth) ≡ redirect "/sign-in"))
      ⊎ ((has_restored reports ≡ true)
          × ((s : Session) × (last none (reported reports) ≡ some s))
          × (require_auth (hear_all reports fresh_auth) ≡ children))
unfolding fresh_auth require_auth
require_auth-Guards reports =
    let auth = hear_all reports fresh_auth in
    let loading = hear_all-is_loading reports fresh_auth in
    let session = hear_all-session reports fresh_auth in
    elim (Bool-cases (has_restored reports)) [
      | inl done_loading ↦ elim (Option-cases (last none (reported reports))) [
        | inl e ↦ inr (
            inl (
              done_loading,
              e,
              require_auth-cases auth false none
                  (loading ∙ still-restored reports true done_loading) (session ∙ e),
            ))
        | inr (s, e) ↦ inr (
            inr (
              done_loading,
              (s, e),
              require_auth-cases auth false (some s)
                  (loading ∙ still-restored reports true done_loading) (session ∙ e),
            ))
      ]
      | inr waits ↦ inl (
        waits,
        require_auth-cases auth true auth.session (loading ∙ still-restored reports false waits)
            refl,
      )
    ]
