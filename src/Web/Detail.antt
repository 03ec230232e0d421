-- ===== src/Web/Detail.antt =====
-- artifacts/landvault-web/src/pages/parcels/detail.tsx: the page of one parcel.
pub mod Upload
use development_plan.Base.{
  String, Bool, true, false, not, ◌&&◌, Option, none, some, List, [], ◌∷◌, ◌==◌, string_eq,
  if◌then◌else◌,
}
use development_plan.Client.Api.Parcels.{get_get_parcel_query_key}

-- What the page reads of its parcel.
pub record Parcel : Type 0 where
  pub parcel_id : String
  pub parcel_number : Option String
  pub status : String
  pub created_at : String
  pub updated_at : String

-- What react-query gives of the parcel, and whether the archiving runs; `parcel` is `data`.
pub record Page : Type 0 where
  pub parcel : Option Parcel
  pub is_loading : Bool
  pub is_error : Bool
  pub is_archiving : Bool

-- A row of the audit log.
pub data Entry : Type 0 where
  created updated : String → Entry

-- The page of a parcel: its title, its log and the button that archives it, by whether that is
-- enabled.
pub data View : Type 0 where
  loading failed missing : View
  shown : String → List Entry → Option Bool → View

unfoldable pub audit_log : Parcel → List Entry
audit_log p =
    created p.created_at ∷ (if p.updated_at == p.created_at then [] else updated p.updated_at ∷ [])

abbrev pub title : Option String → String
title none = "Unallocated"
title (some s) = s

unfoldable pub archive_button : Page → Parcel → Option Bool
archive_button page p = if p.status == "ACTIVE" then some (not page.is_archiving) else none

unfoldable pub view : Page → View
view page =
    if page.is_loading then loading else if page.is_error then failed else elim page.parcel [
      | none ↦ missing
      | some p ↦ shown (title p.parcel_number) (audit_log p) (archive_button page p)
    ]

-- What follows the archiving.
pub data Effect : Type 0 where
  success error : String → Effect
  set_query_data : List String → Parcel → Effect

-- `handleArchive`: the parcel that is to be archived, if the address has one.
unfoldable pub handle_archive : Option String → Option String
handle_archive none = none
handle_archive (some id) = if id == "" then none else some id

unfoldable pub on_success : String → Parcel → List Effect
on_success id updated_parcel =
    success "Parcel archived" ∷ set_query_data (get_get_parcel_query_key id) updated_parcel ∷ []

unfoldable pub on_error : List Effect
on_error = error "Failed to archive parcel" ∷ []

-- The page with the data of its own query replaced.
unfoldable pub perform : List Effect → Page → Page
perform [] page = page
perform (success message ∷ effects) page = perform effects page
perform (error message ∷ effects) page = perform effects page
perform (set_query_data key p ∷ effects) page = perform effects (record page { parcel = some p })
