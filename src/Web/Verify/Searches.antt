-- ===== src/Web/Verify/Searches.antt =====
-- artifacts/landvault-web/src/pages/verify.tsx: what a search shows.
use mathlib.Core.List.{Memᴰ}
use development_plan.Base.{
  String, ◌≡◌, ◌≢◌, ◌⊎◌, inl, inr, refl, sym, ap, ◌∙◌, subst, Bool, true, false, Option, none, some,
  List, [], ◌∷◌, ◌==◌, string_eq, if◌then◌else◌, find, All, Bool-cases, same-true, differ-false,
  if_of_true, if_of_false,
}
use development_plan.Web.Verify.{
  Texts, Page, fresh_page, handle_search, Event, typed, submitted, handle, handle_all, is_numbered,
  is_missing, find_numbered, parcel, not_found,
}

false-true : false ≢ true
false-true e = cc

same-eq : (s t : String) → (s == t) ≡ true → s ≡ t
same-eq s t h = elim (string_eq.dec s t) [
  | yes e ↦ e
  | no n ↦ absurd (false-true (sym (differ-false n) ∙ h))
]

abbrev IsSearch : Page → Type 0
IsSearch page = page.searched_number ≢ some ""

handle-IsSearch :
    (texts : Texts) (page : Page) (e : Event) → IsSearch page → IsSearch (handle texts page e)
unfolding handle handle_search
handle-IsSearch texts page (typed s) given = given
handle-IsSearch texts page submitted given =
    elim (string_eq.dec (texts.trim page.search_input) "") [
      | yes e ↦ subst IsSearch (sym (if_of_true _ _ (same-true e))) given
      | no n ↦ subst IsSearch (sym (if_of_false _ _ (differ-false n))) (λ p. n (some-same p))
    ]
  where
    some-same : {s t : String} → some s ≡ some t → s ≡ t
    some-same p = cc

handle_all-IsSearch :
    (texts : Texts) (events : List Event) (page : Page)
    → IsSearch page
    → IsSearch (handle_all texts events page)
unfolding handle_all
handle_all-IsSearch texts [] page given = given
handle_all-IsSearch texts (e ∷ events) page given =
    handle_all-IsSearch texts events (handle texts page e) (handle-IsSearch texts page e given)

find-cases :
    {A : Type 0} (test : A → Bool) (xs : List A)
    → ((x : A) × (find test xs ≡ some x) × Memᴰ x xs × (test x ≡ true))
      ⊎ ((find test xs ≡ none) × All (λ x. test x ≡ false) xs)
find-cases test [] = inr (refl, tt)
find-cases test (x ∷ xs) = elim (Bool-cases (test x)) [
  | inl here ↦ inl (x, if_of_true _ _ here, Memᴰ.head refl, here)
  | inr later ↦ elim (find-cases test xs) [
    | inl (y, found, member, passes) ↦
        inl (y, if_of_false _ _ later ∙ found, Memᴰ.tail member, passes)
    | inr (none_found, fails) ↦ inr (if_of_false _ _ later ∙ none_found, (later, fails))
  ]
]

-- A parcel whose number reads like the searched one, whatever the case of its letters.
abbrev pub Matches : {Parcel : Type 0} → Texts → (Parcel → Option String) → String → Parcel → Type 0
Matches texts parcel_number searched p =
    (number : String) × (parcel_number p ≡ some number)
    × (texts.to_lower_case number ≡ texts.to_lower_case (texts.trim searched))

none-some : {s : String} → none ≢ some s
none-some e = cc

some-eq : {s t : String} → some s ≡ some t → s ≡ t
some-eq p = cc

is_numbered-Matches :
    {Parcel : Type 0} (texts : Texts) (parcel_number : Parcel → Option String) (searched : String)
    (p : Parcel)
    → (is_numbered texts (texts.to_lower_case (texts.trim searched)) (parcel_number p) ≡ true
        → Matches texts parcel_number searched p)
      × (Matches texts parcel_number searched p
          → is_numbered texts (texts.to_lower_case (texts.trim searched)) (parcel_number p) ≡ true)
unfolding is_numbered
is_numbered-Matches texts parcel_number searched p = by_number (parcel_number p)
  where
    by_number :
        (o : Option String)
        → (is_numbered texts (texts.to_lower_case (texts.trim searched)) o ≡ true
            → (number : String) × (o ≡ some number)
              × (texts.to_lower_case number ≡ texts.to_lower_case (texts.trim searched)))
          × (((number : String) × (o ≡ some number)
                × (texts.to_lower_case number ≡ texts.to_lower_case (texts.trim searched)))
              → is_numbered texts (texts.to_lower_case (texts.trim searched)) o ≡ true)
    by_number none = (λ h. absurd (false-true h), λ m. absurd (none-some m.1))
    by_number (some k) = (
      λ h. (k, refl, same-eq (texts.to_lower_case k) (texts.to_lower_case (texts.trim searched)) h),
      λ m. same-true (ap texts.to_lower_case (some-eq m.1) ∙ m.2),
    )

module _ {Parcel : Type 0} (texts : Texts) (parcel_number : Parcel → Option String) (page : Page)
    (searched : String) (all_parcels : List Parcel) (e : page.searched_number ≡ some searched)
    (given : searched ≢ "") where
  parcel-searched :
      parcel texts parcel_number page (some all_parcels)
      ≡ find_numbered texts parcel_number searched (some all_parcels)
  unfolding parcel
  parcel-searched =
      ap
        (λ (o : Option String). elim o [
          | none ↦ none
          | some s ↦
              if s == "" then none else find_numbered texts parcel_number s (some all_parcels)
        ])
        e
      ∙ if_of_false _ _ (differ-false given)

  not_found-searched :
      (found : Option Parcel)
      → parcel texts parcel_number page (some all_parcels) ≡ found
      → not_found texts parcel_number page (some all_parcels) ≡ is_missing (some all_parcels) found
  unfolding not_found
  not_found-searched found p =
      ap
        (λ (o : Option String). elim o [
          | none ↦ false
          | some s ↦
              if s == ""
              then false
              else is_missing (some all_parcels)
                  (parcel texts parcel_number page (some all_parcels))
        ])
        e
      ∙ if_of_false _ _ (differ-false given)
      ∙ ap (is_missing (some all_parcels)) p

fresh_page-IsSearch : IsSearch fresh_page
unfolding fresh_page
fresh_page-IsSearch e = none-some e

All-fails :
    {Parcel : Type 0} (texts : Texts) (parcel_number : Parcel → Option String) (searched : String)
    (ps : List Parcel)
    → All
        (λ p.
          is_numbered texts (texts.to_lower_case (texts.trim searched)) (parcel_number p) ≡ false)
        ps
    → All (λ p. ¬ Matches texts parcel_number searched p) ps
All-fails texts parcel_number searched [] fails = tt
All-fails texts parcel_number searched (p ∷ ps) (h, fails) = (
  λ m. false-true (sym h ∙ (is_numbered-Matches texts parcel_number searched p).1 m),
  All-fails texts parcel_number searched ps fails,
)

-- However the visitor has come to a search, once the list of parcels is there the page shows a
-- parcel of the list that matches, and does not say that there is none; or no parcel of the list
-- matches, and the page shows none and says so.
pub parcel-Matches :
    {Parcel : Type 0} (texts : Texts) (parcel_number : Parcel → Option String) (events : List Event)
    (searched : String) (all_parcels : List Parcel)
    → (handle_all texts events fresh_page).searched_number ≡ some searched
    → ((p : Parcel) × (parcel texts parcel_number
            (handle_all texts events fresh_page)
            (some all_parcels)
          ≡ some p)
        × Memᴰ p all_parcels
        × Matches texts parcel_number searched p
        × (not_found texts parcel_number (handle_all texts events fresh_page) (some all_parcels)
            ≡ false))
      ⊎ ((parcel texts parcel_number (handle_all texts events fresh_page) (some all_parcels) ≡ none)
          × All (λ p. ¬ Matches texts parcel_number searched p) all_parcels
          × (not_found texts parcel_number (handle_all texts events fresh_page) (some all_parcels)
              ≡ true))
unfolding find_numbered
parcel-Matches texts parcel_number events searched all_parcels e =
    let page = handle_all texts events fresh_page in
    let given : searched ≢ "" =
      λ s. handle_all-IsSearch texts events fresh_page fresh_page-IsSearch (e ∙ ap some s) in
    let shown = parcel-searched texts parcel_number page searched all_parcels e given in
    let said = not_found-searched texts parcel_number page searched all_parcels e given in
    elim (find-cases
      (λ p. is_numbered texts (texts.to_lower_case (texts.trim searched)) (parcel_number p))
      all_parcels) [
        | inl (p, found, member, passes) ↦ inl (
          p,
          shown ∙ found,
          member,
          (is_numbered-Matches texts parcel_number searched p).0 passes,
          said (some p) (shown ∙ found),
        )
        | inr (found, fails) ↦ inr (
          shown ∙ found,
          All-fails texts parcel_number searched all_parcels fails,
          said none (shown ∙ found),
        )
      ]
