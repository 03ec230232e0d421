-- ===== src/Web/Verify.antt =====
-- artifacts/landvault-web/src/pages/verify.tsx: the search for a parcel by its number.
pub mod Searches
use development_plan.Base.{
  String, Bool, true, false, Option, none, some, List, [], ◌∷◌, ◌==◌, string_eq, if◌then◌else◌,
  find,
}

-- `trim` and `toLowerCase`
pub record Texts : Type 0 where
  pub trim : String → String
  pub to_lower_case : String → String

pub record Page : Type 0 where
  pub search_input : String
  pub searched_number : Option String

unfoldable pub fresh_page : Page
fresh_page = record { search_input = ""; searched_number = none }

unfoldable pub handle_search : Texts → Page → Page
handle_search texts page =
    let given = texts.trim page.search_input in
    if given == "" then page else record page { searched_number = some given }

-- What the visitor does.
pub data Event : Type 0 where
  typed : String → Event
  submitted : Event

unfoldable pub handle : Texts → Page → Event → Page
handle texts page (typed s) = record page { search_input = s }
handle texts page submitted = handle_search texts page

unfoldable pub handle_all : Texts → List Event → Page → Page
handle_all texts [] page = page
handle_all texts (e ∷ events) page = handle_all texts events (handle texts page e)

-- `p.parcel_number?.toLowerCase() === needle`
unfoldable pub is_numbered : Texts → String → Option String → Bool
is_numbered texts needle none = false
is_numbered texts needle (some number) = texts.to_lower_case number == needle

-- `allParcels && !parcel`
abbrev pub is_missing : {Parcel : Type 0} → Option (List Parcel) → Option Parcel → Bool
is_missing none found = false
is_missing (some all_parcels) none = true
is_missing (some all_parcels) (some p) = false

module _ {Parcel : Type 0} (texts : Texts) (parcel_number : Parcel → Option String) where
  unfoldable pub find_numbered : String → Option (List Parcel) → Option Parcel
  find_numbered searched none = none
  find_numbered searched (some all_parcels) =
      let needle = texts.to_lower_case (texts.trim searched) in
      find (λ p. is_numbered texts needle (parcel_number p)) all_parcels

  -- The record that is shown, if one is.
  unfoldable pub parcel : Page → Option (List Parcel) → Option Parcel
  parcel page all_parcels = elim page.searched_number [
    | none ↦ none
    | some searched ↦ if searched == "" then none else find_numbered searched all_parcels
  ]

  -- Whether the page says that no record matches.
  unfoldable pub not_found : Page → Option (List Parcel) → Bool
  not_found page all_parcels = elim page.searched_number [
    | none ↦ false
    | some searched ↦
        if searched == "" then false else is_missing all_parcels (parcel page all_parcels)
  ]
