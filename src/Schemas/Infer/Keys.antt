-- ===== src/Schemas/Infer/Keys.antt =====
-- What parsing by the keys of an object gives at each key.
use development_plan.Base.{
  String, ◌≡◌, ◌≢◌, inl, inr, refl, sym, ap, ◌∙◌, subst, Bool, true, false, not, ◌&&◌, Option, none,
  some, ◌==◌, string_eq, if◌then◌else◌, Bool-cases, if_of_true, if_of_false, same-true,
  differ-false,
}
use development_plan.Base.Booleans.{false-true, and-left, and-right}
use development_plan.Schemas.Values.{Value, Fields, get, has, is_undefined}
use development_plan.Schemas.Zod.{Schema, Entries, Parser, parse_entries, add_field}
use development_plan.Schemas.Zod.Loops.{some-eq, both-some, parse_entries-entry}
use development_plan.Schemas.Types.{or_undefined, has_type, has_properties}
use development_plan.Schemas.Infer.{
  is_optional, infer, infer_entries, lacks_key, is_regular, are_regular,
}

pub if_true-test :
    (k name : String) (b : Bool) → (if k == name then false else b) ≡ true → (k ≢ name) × (b ≡ true)
if_true-test k name b e = elim (string_eq.dec k name) [
  | yes p ↦ absurd (false-true (sym (if_of_true _ _ (same-true p)) ∙ e))
  | no n ↦ (n, sym (if_of_false _ _ (differ-false n)) ∙ e)
]

pub get-add_field :
    {N : Type 0} (name k : String) (w : Value N) (h : Bool) (rest : Fields N)
    → k ≢ name
    → get name (add_field k w h rest) ≡ get name rest
unfolding get
get-add_field name k w h rest n = elim (Bool-cases (is_undefined w && not h)) [
  | inl p ↦ ap (get name) (if_of_true _ _ p)
  | inr q ↦ ap (get name) (if_of_false _ _ q) ∙ if_of_false _ _ (differ-false n)
]

-- A key that the schema does not have is not in what it gives.
pub get-parse_entries :
    {N : Type 0} (parse : Schema → Parser N) (name : String) (es : Entries) (given out : Fields N)
    → lacks_key name es ≡ true
    → parse_entries parse es given ≡ some out
    → get name out ≡ Value.undefined
unfolding get parse_entries lacks_key
get-parse_entries parse name Entries.nothing given out lack e =
    subst (λ x. get name x ≡ Value.undefined) (some-eq e) refl
get-parse_entries parse name (Entries.entry k s es) given out lack e =
    let (w, rest, p, q, r) =
      both-some (parse s (get k given)) (parse_entries parse es given)
        (λ w rest. add_field k w (has k given) rest) out
        (sym (parse_entries-entry parse k s es given) ∙ e) in
    let (differ, lack_rest) = if_true-test k name (lacks_key name es) lack in
    ap (get name) (sym r)
    ∙ get-add_field name k w (has k given) rest differ
    ∙ get-parse_entries parse name es given rest lack_rest q

pub has_properties-add_field :
    {N : Type 0} (name : String) (w : Value N) (h : Bool) (rest : Fields N) (es : Entries)
    → lacks_key name es ≡ true
    → has_properties (infer_entries es) (add_field name w h rest)
      ≡ has_properties (infer_entries es) rest
unfolding has_properties infer_entries lacks_key
has_properties-add_field name w h rest Entries.nothing lack = refl
has_properties-add_field name w h rest (Entries.entry k s es) lack =
    let (differ, lack_rest) = if_true-test k name (lacks_key name es) lack in
    let same = get-add_field k name w h rest (λ p. differ (sym p)) in
    ap
      (λ v.
        or_undefined (is_optional s) v (has_type (infer s) v)
        && has_properties (infer_entries es) (add_field name w h rest))
      same
    ∙ ap (λ b. or_undefined (is_optional s) (get k rest) (has_type (infer s) (get k rest)) && b)
        (has_properties-add_field name w h rest es lack_rest)

pub undefined-eq : {N : Type 0} (w : Value N) → is_undefined w ≡ true → w ≡ Value.undefined
undefined-eq Value.undefined e = refl
undefined-eq Value.null e = cc
undefined-eq (Value.boolean b) e = cc
undefined-eq (Value.number n) e = cc
undefined-eq (Value.string s) e = cc
undefined-eq (Value.array vs) e = cc
undefined-eq (Value.object fs) e = cc

pub get-added :
    {N : Type 0} (name : String) (w : Value N) (h : Bool) (rest : Fields N)
    → get name rest ≡ Value.undefined
    → get name (add_field name w h rest) ≡ w
unfolding get
get-added name w h rest gone = elim (Bool-cases (is_undefined w && not h)) [
  | inl p ↦
      ap (get name) (if_of_true _ _ p)
      ∙ gone
      ∙ sym (undefined-eq w (and-left (is_undefined w) (not h) p))
  | inr q ↦ ap (get name) (if_of_false _ _ q) ∙ if_of_true _ _ (same-true refl)
]

-- The schema of a key.
unfoldable pub schema_at : String → Entries → Option Schema
schema_at name Entries.nothing = none
schema_at name (Entries.entry k s es) =
    let rest = schema_at name es in if k == name then some s else rest

-- A key that the schema has holds what its own schema gives.
pub parse_entries-at :
    {N : Type 0} (parse : Schema → Parser N) (name : String) (s : Schema) (es : Entries)
    (given out : Fields N)
    → are_regular es ≡ true
    → schema_at name es ≡ some s
    → parse_entries parse es given ≡ some out
    → parse s (get name given) ≡ some (get name out)
unfolding schema_at are_regular
parse_entries-at parse name s Entries.nothing given out r found e = cc
parse_entries-at parse name s (Entries.entry k t es) given out r found e =
    let first = and-left (lacks_key k es && is_regular t) (are_regular es) r in
    let lack = and-left (lacks_key k es) (is_regular t) first in
    let (w, rest, p, q, same) =
      both-some (parse t (get k given)) (parse_entries parse es given)
        (λ w rest. add_field k w (has k given) rest) out
        (sym (parse_entries-entry parse k t es given) ∙ e) in
    elim (string_eq.dec k name) [
      | yes here ↦
          let gone = get-parse_entries parse k es given rest lack q in
          let own = some-eq (sym (if_of_true _ _ (same-true here)) ∙ found) in
          subst (λ n. parse s (get n given) ≡ some (get n out)) here
            (ap (λ x. parse x (get k given)) (sym own)
              ∙ p
              ∙ ap some (sym (get-added k w (has k given) rest gone) ∙ ap (get k) same))
      | no other ↦
          parse_entries-at parse name s es given rest
            (and-right (lacks_key k es && is_regular t) (are_regular es) r)
            (sym (if_of_false _ _ (differ-false other)) ∙ found) q
          ∙ ap some (sym (get-add_field name k w (has k given) rest other) ∙ ap (get name) same)
    ]
