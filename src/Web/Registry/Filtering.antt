-- ===== src/Web/Registry/Filtering.antt =====
-- artifacts/landvault-web/src/pages/parcels/index.tsx: which parcels the page of the registry shows.
use mathlib.Core.List.{Memᴰ}
use development_plan.Base.{
  String, ◌≡◌, ◌⊎◌, ◌↔◌, inl, inr, refl, sym, ap, ◌∙◌, subst, Bool, true, false, not, ◌&&◌, ◌||◌,
  Option, none, some, List, [], ◌∷◌, ◌==◌, string_eq, if◌then◌else◌, keep, Bool-cases, if_of_true,
  if_of_false, same-true, differ-false,
}
use development_plan.Base.Booleans.{and-left, and-right, and-both, or-left, or-right, false-true}
use development_plan.Web.Registry.Searched.{searched, haystack-searched}
use development_plan.Web.Registry.{
  Parcel, Texts, haystack, is_text, matches_filters, Filters, filtered,
}

-- What the filters ask of a parcel.
pub record Passes (texts : Texts) (filters : Filters) (p : Parcel) : Type 0 where
  pub in_status : (filters.status ≡ "all") ⊎ (p.status ≡ filters.status)
  pub in_state : (filters.state ≡ "all") ⊎ (p.state ≡ some filters.state)
  pub found :
      (filters.search_input ≡ "")
      ⊎ (texts.includes
            (texts.to_lower_case (searched p))
            (texts.to_lower_case filters.search_input)
          ≡ true)

-- A guard with two tests that returns false.
guard-or : (a b rest : Bool) → (if not a && not b then false else rest) ≡ ((a || b) && rest)
guard-or true b rest = refl
guard-or false true rest = refl
guard-or false false rest = refl

or_cases : {A B : Type 0} (a b : Bool) → (a ≡ true → A) → (b ≡ true → B) → (a || b) ≡ true → A ⊎ B
or_cases true b f g e = inl (f refl)
or_cases false b f g e = inr (g e)

cases_or : {A B : Type 0} (a b : Bool) → (A → a ≡ true) → (B → b ≡ true) → A ⊎ B → (a || b) ≡ true
cases_or a b f g (inl x) = or-left b (f x)
cases_or a b f g (inr y) = or-right a (g y)

same-is : (s t : String) → (s == t) ≡ true → s ≡ t
same-is s t e = elim (string_eq.dec s t) [
  | yes p ↦ p
  | no n ↦ absurd (false-true (sym (differ-false n) ∙ e))
]

is_text-some : (s : String) (o : Option String) → is_text s o ≡ true → o ≡ some s
is_text-some s none e = absurd (false-true e)
is_text-some s (some t) e = ap some (same-is t s e)

some-is_text : (s : String) (o : Option String) → o ≡ some s → is_text s o ≡ true
some-is_text s o e = subst (λ x. is_text s x ≡ true) (sym e) (same-true refl)

-- Three such guards.
guards-or :
    (a b c d e f : Bool)
    → (if not a && not b
        then false
        else if not c && not d
        then false
        else if not e && not f
        then false
        else true)
      ≡ ((a || b) && ((c || d) && ((e || f) && true)))
guards-or a b c d e f =
    guard-or a b (if not c && not d then false else if not e && not f then false else true)
    ∙ ap (λ rest. (a || b) && rest)
        (guard-or c d (if not e && not f then false else true)
          ∙ ap (λ rest. (c || d) && rest) (guard-or e f true))

module _ (texts : Texts) (filters : Filters) (p : Parcel) where
  abbrev any_status : Bool
  any_status = filters.status == "all"

  abbrev own_status : Bool
  own_status = p.status == filters.status

  abbrev any_state : Bool
  any_state = filters.state == "all"

  abbrev own_state : Bool
  own_state = is_text filters.state p.state

  abbrev any_search : Bool
  any_search = filters.search_input == ""

  abbrev own_search : Bool
  own_search =
      texts.includes (texts.to_lower_case (searched p)) (texts.to_lower_case filters.search_input)

  abbrev tests : Bool
  tests =
      (any_status || own_status)
      && ((any_state || own_state) && ((any_search || own_search) && true))

  matches_filters-tests :
      matches_filters texts p filters.search_input filters.status filters.state ≡ tests
  unfolding matches_filters
  matches_filters-tests =
      guards-or any_status own_status any_state own_state any_search
        (texts.includes (haystack texts p) (texts.to_lower_case filters.search_input))
      ∙ ap
          (λ h.
            (any_status || own_status)
            && ((any_state || own_state)
                && ((any_search || texts.includes h (texts.to_lower_case filters.search_input))
                    && true)))
          (haystack-searched texts p)

  tests-Passes : tests ≡ true → Passes texts filters p
  tests-Passes e =
      let later =
        and-right (any_status || own_status)
          ((any_state || own_state) && ((any_search || own_search) && true)) e in
      let last = and-right (any_state || own_state) ((any_search || own_search) && true) later in
      record {
        in_status =
            or_cases any_status own_status (same-is filters.status "all")
              (same-is p.status filters.status)
              (and-left (any_status || own_status)
                ((any_state || own_state) && ((any_search || own_search) && true)) e);
        in_state =
            or_cases any_state own_state (same-is filters.state "all")
              (is_text-some filters.state p.state)
              (and-left (any_state || own_state) ((any_search || own_search) && true) later);
        found =
            or_cases any_search own_search (same-is filters.search_input "") (λ x. x)
              (and-left (any_search || own_search) true last);
      }

  Passes-tests : Passes texts filters p → tests ≡ true
  Passes-tests h = and-both (cases_or any_status own_status same-true same-true h.in_status) (
      and-both
        (cases_or any_state own_state same-true (some-is_text filters.state p.state) h.in_state)
        (and-both (cases_or any_search own_search same-true (λ x. x) h.found) refl))

module _ {A : Type 0} (test : A → Bool) where
  kept :
      (y x : A) (ys zs : List A)
      → test y ≡ true
      → (Memᴰ x zs → Memᴰ x ys × (test x ≡ true))
      → Memᴰ x (y ∷ zs)
      → Memᴰ x (y ∷ ys) × (test x ≡ true)
  kept y x ys zs here rest (Memᴰ.head e) = (Memᴰ.head e, ap test e ∙ here)
  kept y x ys zs here rest (Memᴰ.tail k) =
      let (earlier, passed) = rest k in (Memᴰ.tail earlier, passed)

  keep-Mem : (xs : List A) (x : A) → Memᴰ x (keep test xs) → Memᴰ x xs × (test x ≡ true)
  keep-Mem [] x m = elim m [ ]
  keep-Mem (y ∷ ys) x m = elim (Bool-cases (test y)) [
    | inl here ↦
        kept y x ys (keep test ys) here (keep-Mem ys x)
          (subst (λ l. Memᴰ x l) (if_of_true _ _ here) m)
    | inr there ↦
        let (earlier, passed) = keep-Mem ys x (subst (λ l. Memᴰ x l) (if_of_false _ _ there) m) in
        (Memᴰ.tail earlier, passed)
  ]

  Mem-keep : (xs : List A) (x : A) → Memᴰ x xs → test x ≡ true → Memᴰ x (keep test xs)
  Mem-keep [] x m e = elim m [ ]
  Mem-keep (y ∷ ys) x (Memᴰ.head same) e =
      subst (λ l. Memᴰ x l) (sym (if_of_true _ _ (ap test (sym same) ∙ e))) (Memᴰ.head same)
  Mem-keep (y ∷ ys) x (Memᴰ.tail m) e = elim (Bool-cases (test y)) [
    | inl here ↦ subst (λ l. Memᴰ x l) (sym (if_of_true _ _ here)) (Memᴰ.tail (Mem-keep ys x m e))
    | inr there ↦ subst (λ l. Memᴰ x l) (sym (if_of_false _ _ there)) (Mem-keep ys x m e)
  ]

-- The page shows a parcel of the list if and only if it passes the filters: its status and its state
-- are the chosen ones, where "all" stands for every one, and, where something is searched, the text
-- of its number, owner and address, those that are there and not empty, with a space between, has it
-- in it, upper and lower case aside.
pub filtered-Passes :
    (texts : Texts) (filters : Filters) (parcels : List Parcel) (p : Parcel)
    → Memᴰ p (filtered texts filters (some parcels)) ↔ (Memᴰ p parcels × Passes texts filters p)
unfolding filtered
filtered-Passes texts filters parcels p =
    let test : Parcel → Bool =
      λ p'. matches_filters texts p' filters.search_input filters.status filters.state in
    (
      λ m.
          let (there, passed) = keep-Mem test parcels p m in
          (
            there,
            tests-Passes texts filters p (sym (matches_filters-tests texts filters p) ∙ passed),
          ),
      λ (m, passed).
          Mem-keep test parcels p m
            (matches_filters-tests texts filters p ∙ Passes-tests texts filters p passed),
    )
