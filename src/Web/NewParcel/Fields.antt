-- ===== src/Web/NewParcel/Fields.antt =====
-- artifacts/landvault-web/src/pages/parcels/new.tsx: what the schema of the form makes of its fields.
use mathlib.Core.Option
use development_plan.Base.{
  String, ◌≡◌, ◌⊎◌, inl, inr, refl, sym, ap, ◌∙◌, true, Option, some, string_eq, if_of_true,
  if_of_false, Bool-cases,
}
use development_plan.Schemas.Values.{Value, Fields, get}
use development_plan.Base.Booleans.{leb}
use development_plan.Schemas.Zod.{
  Schema, Entries, string, min, at_least, coerce_number, on_string, on_object, limited,
  limited_number, parse_entries, Zod, IsZod,
}
use development_plan.Schemas.Infer.{is_regular, are_regular, lacks_key, is_optional}
use development_plan.Schemas.Infer.Steps.{limited_number-some, map-some}
use development_plan.Schemas.Infer.Parsing.{unless_undefined-some}
use development_plan.Schemas.Infer.Keys.{
  schema_at, parse_entries-at, get-parse_entries, undefined-eq,
}
use development_plan.Schemas.Zod.Loops.{none-some, some-eq}
use development_plan.Web.NewParcel.{form_schema}

-- The keys of the form.
abbrev pub form_keys : Entries
form_keys = elim form_schema [ Schema.object es ↦ es | _ ↦ Entries.nothing ]

form_keys-regular : are_regular form_keys ≡ true
unfolding are_regular is_regular lacks_key is_optional string_eq
form_keys-regular = refl

module _ {N : Type 0} (z : Zod N) (laws : IsZod z) where
  -- A text that a field holds, which is not empty.
  abbrev pub IsText : Value N → Value N → Type 0
  IsText v w =
      (s : String) × (v ≡ Value.string s) × (w ≡ Value.string s) × (leb 1 (z.length s) ≡ true)

  limited-IsText :
      (v w : Value N)
      → limited (λ t. leb 1 (z.length t)) (on_string (λ s. some (Value.string s)) v) ≡ some w
      → IsText v w
  limited-IsText (Value.string s) w e = elim (Bool-cases (leb 1 (z.length s))) [
    | inl long ↦ (s, refl, sym (some-eq (sym (if_of_true _ _ long) ∙ e)), long)
    | inr short ↦ absurd (none-some (sym (if_of_false _ _ short) ∙ e))
  ]
  limited-IsText _ w e = absurd (none-some e)

  min-IsText : (v w : Value N) → z.parse (min 1 string) v ≡ some w → IsText v w
  min-IsText v w e =
      limited-IsText v w (
        ap (limited (λ t. leb 1 (z.length t))) (sym (laws.string v))
        ∙ sym (laws.min 1 string v)
        ∙ e)

  -- The number of a field, which is at least 1.
  abbrev pub IsArea : Value N → Value N → Type 0
  IsArea v w =
      (n : N) × (z.to_number v ≡ some n) × (w ≡ Value.number n) × (z.is_at_least 1 n ≡ true)

  limited_number-IsArea :
      (o : Option (Value N)) (w : Value N) (n : N)
      → o ≡ some (Value.number n)
      → limited_number (z.is_at_least 1) o ≡ some w
      → (w ≡ Value.number n) × (z.is_at_least 1 n ≡ true)
  limited_number-IsArea o w n same e =
      let f = sym (ap (limited_number (z.is_at_least 1)) same) ∙ e in
      elim (Bool-cases (z.is_at_least 1 n)) [
        | inl enough ↦ (sym (some-eq (sym (if_of_true _ _ enough) ∙ f)), enough)
        | inr less ↦ absurd (none-some (sym (if_of_false _ _ less) ∙ f))
      ]

  at_least-IsArea : (v w : Value N) → z.parse (at_least 1 coerce_number) v ≡ some w → IsArea v w
  at_least-IsArea v w e =
      let limit = sym (laws.at_least 1 coerce_number v) ∙ e in
      let parsed = limited_number-some (z.is_at_least 1) (z.parse coerce_number v) w limit in
      let (n, given, same) =
        map-some Value.number (z.to_number v) w (sym (laws.coerce_number v) ∙ parsed) in
      let (number, enough) =
        limited_number-IsArea (z.parse coerce_number v) w n (parsed ∙ ap some (sym same)) limit in
      (n, given, number, enough)

  -- A text, or nothing.
  abbrev pub IsContact : Value N → Value N → Type 0
  IsContact v w = (v ≡ w) × ((w ≡ Value.undefined) ⊎ ((s : String) × (w ≡ Value.string s)))

  on_string-IsContact :
      (v w : Value N) → on_string (λ s. some (Value.string s)) v ≡ some w → IsContact v w
  on_string-IsContact (Value.string s) w e = (some-eq e, inr (s, sym (some-eq e)))
  on_string-IsContact _ w e = absurd (none-some e)

  optional-IsContact : (v w : Value N) → z.parse (Schema.optional string) v ≡ some w → IsContact v w
  optional-IsContact v w e =
      elim (unless_undefined-some v w (some v) (z.parse string v)
        (sym (laws.optional string v) ∙ e)) [
          | inl (missing, same) ↦ (some-eq same, inl (sym (some-eq same) ∙ undefined-eq v missing))
          | inr given ↦ on_string-IsContact v w (sym (laws.string v) ∙ given)
        ]

  -- What the schema of the form has made of the fields.
  pub record IsComplete (given out : Fields N) : Type 0 where
    pub owner : IsText (get "current_owner_name" given) (get "current_owner_name" out)
    pub contact : IsContact (get "current_owner_contact" given) (get "current_owner_contact" out)
    pub address : IsText (get "address" given) (get "address" out)
    pub state : IsText (get "state" given) (get "state" out)
    pub lga : IsText (get "lga" given) (get "lga" out)
    pub size : IsArea (get "size_sqm" given) (get "size_sqm" out)
    pub land_use : IsText (get "property_type" given) (get "property_type" out)
    pub no_more : (name : String) → lacks_key name form_keys ≡ true → get name out ≡ Value.undefined

  pub form_keys-IsComplete :
      (given out : Fields N)
      → parse_entries z.parse form_keys given ≡ some out
      → IsComplete given out
  unfolding schema_at string_eq
  form_keys-IsComplete given out e =
      let at : (name : String) (s : Schema)
          → schema_at name form_keys ≡ some s
          → z.parse s (get name given) ≡ some (get name out) =
        λ name s found.
          parse_entries-at z.parse name s form_keys given out form_keys-regular found e in
      record {
        owner = min-IsText _ _ (at "current_owner_name" (min 1 string) refl);
        contact = optional-IsContact _ _ (at "current_owner_contact" (Schema.optional string) refl);
        address = min-IsText _ _ (at "address" (min 1 string) refl);
        state = min-IsText _ _ (at "state" (min 1 string) refl);
        lga = min-IsText _ _ (at "lga" (min 1 string) refl);
        size = at_least-IsArea _ _ (at "size_sqm" (at_least 1 coerce_number) refl);
        land_use = min-IsText _ _ (at "property_type" (min 1 string) refl);
        no_more = λ name lack. get-parse_entries z.parse name form_keys given out lack e;
      }

  on_object-some :
      (f : Fields N → Option (Value N)) (v w : Value N)
      → on_object f v ≡ some w
      → (fs : Fields N) × (v ≡ Value.object fs) × (f fs ≡ some w)
  on_object-some f (Value.object fs) w e = (fs, refl, e)
  on_object-some f _ w e = absurd (none-some e)

  pub object-parsed :
      (v w : Value N)
      → z.parse form_schema v ≡ some w
      → (given : Fields N) × (v ≡ Value.object given)
        × (Option.map Value.object (parse_entries z.parse form_keys given) ≡ some w)
  object-parsed v w e =
      on_object-some (λ fs. Option.map Value.object (parse_entries z.parse form_keys fs)) v w
        (sym (laws.object form_keys v) ∙ e)
