-- ===== src/Tests/WebRuns.antt =====
-- The pages of the web application at concrete data.
use mathlib.Core.List.{Memᴰ}
use development_plan.Base.{
  String, ◌<>◌, ◌≡◌, ◌⊎◌, refl, true, false, Option, none, some, List, [], ◌∷◌, ◌==◌, string_eq,
  if◌then◌else◌, All,
}
use development_plan.Base.Attempt.{done}
use development_plan.Client.{Input, without_slashes, set_base_url, set_auth_token_getter}
use development_plan.Client.Api.Operations.{sent}
use development_plan.Tests.ApiRuns.{runtime, platform, archiving, based, call, archive_run}
use development_plan.Web.Start.{
  access_token_of, unset_client, set_api_base_url, start, start-based, Environment, truthy,
  supabase_client,
}
use development_plan.Web.Auth.{Report, restored, changed}
use development_plan.Web.Verify.{
  Texts, fresh_page, Event, typed, submitted, handle, handle_all, handle_search, is_numbered,
  find_numbered, parcel, not_found,
}
use development_plan.Web.Verify.Searches.{Matches, parcel-Matches}

abbrev env : Environment
env = record {
  supabase_url = some "https://db";
  supabase_anon_key = some "key";
  api_base_url = some "https://api/";
}

start_run : start env (done (some (record { access_token = "t1" }))) ≡ done based
unfolding start supabase_client truthy set_api_base_url set_base_url set_auth_token_getter
    access_token_of unset_client without_slashes string_eq
start_run = refl

start-based_example :
    ((client : String × String) × (supabase_client (some "https://db") (some "key") ≡ done client))
    × ((address : String) × (some "https://api/" ≡ some address)
        × (call.input ≡ Input.text (without_slashes address <> (sent runtime archiving none).url)))
start-based_example =
    start-based runtime platform env (done (some (record { access_token = "t1" }))) based archiving
      none call start_run archive_run

abbrev texts : Texts
texts = record {
  trim = λ s. if s == " lv-1" then "lv-1" else s;
  to_lower_case = λ s. if s == "LV-1" then "lv-1" else s;
}

-- Parcels by their numbers alone, one of them without.
abbrev listed : List (Option String)
listed = none ∷ some "LV-1" ∷ []

abbrev visit : List Event
visit = typed " lv-1" ∷ submitted ∷ []

abbrev number : Option String → Option String
number p = p

searched_run : (handle_all texts visit fresh_page).searched_number ≡ some "lv-1"
unfolding handle_all handle handle_search fresh_page string_eq
searched_run = refl

found_run :
    parcel texts number (handle_all texts visit fresh_page) (some listed) ≡ some (some "LV-1")
unfolding parcel find_numbered is_numbered handle_all handle handle_search fresh_page string_eq
found_run = refl

parcel-Matches_example :
    ((p : Option String) × (parcel texts number (handle_all texts visit fresh_page) (some listed)
        ≡ some p)
      × Memᴰ p listed
      × Matches texts number "lv-1" p
      × (not_found texts number (handle_all texts visit fresh_page) (some listed) ≡ false))
    ⊎ ((parcel texts number (handle_all texts visit fresh_page) (some listed) ≡ none)
        × All (λ p. ¬ Matches texts number "lv-1" p) listed
        × (not_found texts number (handle_all texts visit fresh_page) (some listed) ≡ true))
parcel-Matches_example = parcel-Matches texts number visit "lv-1" listed searched_run

-- A sign-out while the stored session is restored, and a sign-in after it.
abbrev reports : List Report
reports = changed none ∷ restored none ∷ changed (some (record { access_token = "t2" })) ∷ []
