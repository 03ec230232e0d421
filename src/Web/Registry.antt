-- ===== src/Web/Registry.antt =====
-- artifacts/landvault-web/src: the lists of parcels, on the page of the registry
-- (pages/parcels/index.tsx) and on the overview (pages/dashboard.tsx).
pub mod Searched
pub mod Filtering
use development_plan.Base.{
  ℕ, String, ◌<>◌, Bool, true, false, not, ◌&&◌, Option, none, some, List, [], ◌∷◌, ◌==◌, string_eq,
  if◌then◌else◌, keep, length, take,
}

-- What the pages read of a parcel. A column may be null or missing.
pub record Parcel : Type 0 where
  pub parcel_id : String
  pub status : String
  pub parcel_number : Option String
  pub current_owner_name : Option String
  pub address : Option String
  pub state : Option String

-- `toLowerCase` and `haystack.includes(needle)`
pub record Texts : Type 0 where
  pub to_lower_case : String → String
  pub includes : String → String → Bool

-- `.filter(Boolean)`
unfoldable pub present : List (Option String) → List String
present [] = []
present (none ∷ texts) = present texts
present (some s ∷ texts) = let rest = present texts in if s == "" then rest else s ∷ rest

-- `.join(" ")`
unfoldable pub join : List String → String
join [] = ""
join (s ∷ []) = s
join (s ∷ (t ∷ rest)) = s <> (" " <> join (t ∷ rest))

unfoldable pub haystack : Texts → Parcel → String
haystack texts p =
    texts.to_lower_case (join (present (p.parcel_number ∷ p.current_owner_name ∷ p.address ∷ [])))

-- `value === given`, where the value may not be a text.
abbrev pub is_text : String → Option String → Bool
is_text given none = false
is_text given (some s) = s == given

unfoldable pub matches_filters : Texts → Parcel → String → String → String → Bool
matches_filters texts p search status state =
    if not (status == "all") && not (p.status == status)
    then false
    else if not (state == "all") && not (is_text state p.state)
    then false
    else if not (search == "")
        && not (texts.includes (haystack texts p) (texts.to_lower_case search))
    then false
    else true

-- The filters of the page.
pub record Filters : Type 0 where
  pub search_input : String
  pub status : String
  pub state : String

unfoldable pub fresh_filters : Filters
fresh_filters = record { search_input = ""; status = "all"; state = "all" }

-- What react-query gives of the list; `parcels` is `data`.
pub record Loaded : Type 0 where
  pub parcels : Option (List Parcel)
  pub is_loading : Bool
  pub is_error : Bool

unfoldable pub filtered : Texts → Filters → Option (List Parcel) → List Parcel
filtered texts filters none = []
filtered texts filters (some parcels) =
    keep (λ p. matches_filters texts p filters.search_input filters.status filters.state) parcels

-- What stands in the place of the rows.
pub data Rows : Type 0 where
  loading failed nothing_found : Rows
  rows : List Parcel → Rows

abbrev pub rows_or_nothing : List Parcel → Rows
rows_or_nothing [] = nothing_found
rows_or_nothing (p ∷ ps) = rows (p ∷ ps)

unfoldable pub registry_rows : Texts → Filters → Loaded → Rows
registry_rows texts filters loaded =
    if loaded.is_loading
    then loading
    else if loaded.is_error
    then failed
    else rows_or_nothing (filtered texts filters loaded.parcels)

-- "Showing … of … parcels"
unfoldable pub footer : Texts → Filters → Loaded → Option (ℕ × ℕ)
footer texts filters loaded = elim loaded.parcels [
  | none ↦ none
  | some parcels ↦ some (length (filtered texts filters loaded.parcels), length parcels)
]

-- The recent parcels of the overview.
unfoldable pub recent_rows : Loaded → Rows
recent_rows loaded =
    if loaded.is_loading then loading else if loaded.is_error then failed else elim loaded.parcels [
      | none ↦ nothing_found
      | some parcels ↦ rows_or_nothing (take 5 parcels)
    ]

-- The address that a row leads to.
unfoldable pub parcel_address : Parcel → String
parcel_address p = "/parcels/" <> p.parcel_id
