-- ===== src/Web/Registry/Searched.antt =====
-- artifacts/landvault-web/src/pages/parcels/index.tsx: the text of a parcel that a search looks
-- through.
use text.Mathlib.TextLemmas.{append-nil}
use development_plan.Base.{
  String, ◌<>◌, ◌++◌, ◌≡◌, inl, inr, refl, sym, ap, ◌∙◌, Option, none, some, List, [], ◌∷◌, ◌==◌,
  string_eq, if◌then◌else◌, Bool-cases, if_of_true, if_of_false,
}
use development_plan.Web.Registry.{Parcel, Texts, present, join, haystack}

-- The texts of a parcel that are there and not empty, in order.
abbrev pub given : Option String → List String
given none = []
given (some s) = if s == "" then [] else s ∷ []

-- Texts, each with a space before it.
abbrev pub after_space : List String → String
after_space [] = ""
after_space (s ∷ texts) = " " <> (s <> after_space texts)

abbrev pub with_spaces : List String → String
with_spaces [] = ""
with_spaces (s ∷ texts) = s <> after_space texts

-- What a search looks through: the number, the owner and the address of the parcel.
abbrev pub searched : Parcel → String
searched p = with_spaces (given p.parcel_number ++ (given p.current_owner_name ++ given p.address))

append-end : (texts : List String) → texts ++ [] ≡ texts
append-end [] = refl
append-end (s ∷ texts) = ap (λ l. s ∷ l) (append-end texts)

present-given :
    (o : Option String) (rest : List (Option String)) → present (o ∷ rest) ≡ given o ++ present rest
unfolding present
present-given none rest = refl
present-given (some s) rest = elim (Bool-cases (s == "")) [
  | inl empty ↦
      if_of_true _ _ empty ∙ ap (λ l. l ++ present rest) (sym (if_of_true [] (s ∷ []) empty))
  | inr full ↦
      if_of_false _ _ full ∙ ap (λ l. l ++ present rest) (sym (if_of_false [] (s ∷ []) full))
]

join-with_spaces : (texts : List String) → join texts ≡ with_spaces texts
unfolding join
join-with_spaces [] = refl
join-with_spaces (s ∷ []) = sym (append-nil s)
join-with_spaces (s ∷ t ∷ rest) = ap (λ x. s <> (" " <> x)) (join-with_spaces (t ∷ rest))

pub haystack-searched :
    (texts : Texts) (p : Parcel) → haystack texts p ≡ texts.to_lower_case (searched p)
unfolding haystack present
haystack-searched texts p =
    let three =
      present-given p.parcel_number (p.current_owner_name ∷ p.address ∷ [])
      ∙ ap (λ l. given p.parcel_number ++ l)
          (present-given p.current_owner_name (p.address ∷ [])
            ∙ ap (λ l. given p.current_owner_name ++ l)
                (present-given p.address [] ∙ append-end (given p.address))) in
    ap texts.to_lower_case (ap join three ∙ join-with_spaces _)
