-- ===== src/Tests/PageRuns.antt =====
-- What the pages of the web application come to, at concrete events.
use mathlib.Core.List.{Memᴰ}
use text.Mathlib.TextEquality.{eq_iff}
use development_plan.Base.{
  ℕ, String, ◌≡◌, ◌≢◌, ◌⊎◌, ◌↔◌, refl, true, false, none, some, List, [], ◌∷◌, ◌==◌, string_eq,
  if◌then◌else◌, arith,
}
use development_plan.Base.Attempt.{done, threw}
use development_plan.Web.Auth.{Report, restored, changed, hear_all, fresh_auth}
use development_plan.Web.Boundary.{
  Error, Thrown, Printing, Boundary, Console, Event, props, run, step, render, commit,
  receive_props, component_did_update, reset_error, mounted, to_error, printed_error,
}
use development_plan.Web.Boundary.Errors.{IsOwn, run-IsOwn, receive_props-Anew}
use development_plan.Base.{if_of_true, if_of_false}
use development_plan.Web.App.{Element, not_found, Route, route, otherwise, Wouter, IsWouter, router}
use development_plan.Web.App.Screens.{IsAllowed, router-IsAllowed}
use development_plan.Web.SignIn.{
  Page, fresh_page, handle_submit, submitted, sign_in_with_password, refused, start, type_email,
  submit, answer,
}
use development_plan.Web.SignIn.Attempts.{IsFaithful, Reached-IsFaithful}
use development_plan.Web.Registry.{
  Parcel, Texts, Filters, filtered, matches_filters, haystack, present, join,
}
use development_plan.Web.Registry.Filtering.{Passes, filtered-Passes}

-- Every value prints as "thrown".
abbrev printing : Printing ℕ
printing = record { stringify = λ n. threw; to_string = λ n. done "thrown" }

abbrev events : List (Event ℕ)
events =
    props "/" (some (Thrown.text "first")) none
    ∷ props "/verify" (some (Thrown.text "second")) (some (Thrown.other 3))
    ∷ []

abbrev broken : Boundary
broken = record { error = some (record { message = "thrown" }); reset_key = "/verify" }

abbrev told : Console
told = (record { message = "thrown" }, "/verify") ∷ (record { message = "first" }, "/") ∷ []

runs_to_broken : run printing events (mounted "/") [] ≡ done (broken, told)
unfolding run step receive_props render commit component_did_update reset_error mounted to_error
    printed_error string_eq
runs_to_broken = refl

run-IsOwn_example : IsOwn broken told
run-IsOwn_example = run-IsOwn printing events "/" broken told runs_to_broken

abbrev before : Boundary
before = record { error = some (record { message = "first" }); reset_key = "/" }

abbrev after : Boundary
after = record { error = none; reset_key = "/verify" }

moved : ◌≢◌ {A = String} "/" "/verify"
moved = ground (arith, eq_iff "/" "/verify")

recovered : receive_props printing "/verify" none none before [] ≡ done (after, [])
unfolding receive_props render commit component_did_update reset_error string_eq
recovered = refl

receive_props-Anew_example :
    (after.error ≡ none)
    ⊎ ((t : Thrown ℕ) × (e : Error) × (none ≡ some t)
        × (to_error printing t ≡ done e)
        × (after.error ≡ some e))
receive_props-Anew_example =
    receive_props-Anew printing "/verify" none none before [] after [] moved recovered

-- A location matches the path that it is.
unfoldable pub first_route : List Route → String → Element
first_route [] location = Element.plain not_found
first_route (route path element ∷ rest) location =
    let later = first_route rest location in if path == location then element else later
first_route (otherwise element ∷ rest) location = element

abbrev wouter : Wouter
wouter = record { matches = λ path location. path == location; switch = first_route }

wouter-IsWouter : IsWouter wouter
unfolding first_route
wouter-IsWouter = record {
  here = λ path element rest location e. if_of_true _ _ e;
  later = λ path element rest location e. if_of_false _ _ e;
  last = λ element rest location. refl;
}

abbrev reports : List Report
reports = restored none ∷ changed (some (record { access_token = "t1" })) ∷ []

sign_in_matches : wouter.matches "/sign-in" "/sign-in" ≡ true
unfolding string_eq
sign_in_matches = refl

router-IsAllowed_example :
    IsAllowed wouter reports (router wouter (hear_all reports fresh_auth) "/parcels")
router-IsAllowed_example =
    router-IsAllowed wouter wouter-IsWouter reports "/parcels" sign_in_matches

abbrev page : Page
page =
    submitted (sign_in_with_password (refused "Invalid login"))
      (handle_submit (record fresh_page { email = "ada@example.com" }))

not_submitting : (record fresh_page { email = "ada@example.com" }).is_submitting ≡ false
unfolding fresh_page
not_submitting = refl

Reached-IsFaithful_example :
    IsFaithful page false
      (("ada@example.com", fresh_page.password) ∷ [])
      (refused "Invalid login" ∷ [])
Reached-IsFaithful_example =
    Reached-IsFaithful (
      answer (refused "Invalid login") (submit (type_email "ada@example.com" start) not_submitting))

abbrev texts : Texts
texts = record {
  to_lower_case = λ s. if s == "Ada" then "ada" else s;
  includes = λ text needle. text == needle;
}

abbrev of_ada : Parcel
of_ada = record {
  parcel_id = "1";
  status = "ACTIVE";
  parcel_number = none;
  current_owner_name = some "Ada";
  address = some "";
  state = some "Lagos";
}

abbrev filters : Filters
filters = record { search_input = "Ada"; status = "ACTIVE"; state = "all" }

filtered_run :
    filtered texts filters (some (of_ada ∷ record of_ada { current_owner_name = none } ∷ []))
    ≡ of_ada ∷ []
unfolding filtered matches_filters haystack present join string_eq
filtered_run = refl

filtered-Passes_example :
    Memᴰ of_ada (filtered texts filters (some (of_ada ∷ [])))
    ↔ (Memᴰ of_ada (of_ada ∷ []) × Passes texts filters of_ada)
filtered-Passes_example = filtered-Passes texts filters (of_ada ∷ []) of_ada
