-- ===== src/Schemas/Infer/Accepting.antt =====
-- A schema with no limits accepts exactly the values that have its type.
use mathlib.Core.Option
use development_plan.Base.{
  ◌≡◌, refl, ap, ◌∙◌, Bool, true, not, ◌&&◌, ◌||◌, none, some, string_eq, if◌then◌else◌,
}
use development_plan.Base.Booleans.{false-true, and-left, and-right, not-true, or_false}
use development_plan.Schemas.Values.{Value, Fields, get, has, is_undefined}
use development_plan.Schemas.Zod.{
  Schema, Entries, is_among, parse_values, parse_record, parse_entries, add_field, Zod, IsZod,
}
use development_plan.Schemas.Zod.Loops.{parse_entries-entry, parse_entries-nothing}
use development_plan.Schemas.Types.{all_values, all_fields, or_undefined, has_type, has_properties}
use development_plan.Schemas.Infer.{
  is_optional, infer, infer_entries, lacks_key, is_string_schema, is_regular, are_regular,
  is_unlimited, are_unlimited,
}
use development_plan.Schemas.Infer.Outcomes.{
  is_some, some_if, accepts-string, accepts-array, accepts-object, accepts-number, accepts-boolean,
  accepts-null, accepts-unless_undefined, accepts-or_else, accepts-map, accepts-both,
  accepts-values, accepts-fields,
}

-- Whether a value has the type of a schema, as the schema is to tell.
abbrev pub typed_by : {N : Type 0} → Schema → Value N → Bool
typed_by s v = or_undefined (is_optional s) v (has_type (infer s) v)

plain-eq :
    {N : Type 0} (s : Schema) (v : Value N) (b : Bool)
    → not (is_optional s) ≡ true
    → b ≡ typed_by s v
    → b ≡ has_type (infer s) v
plain-eq s v b plain e =
    e ∙ ap (λ c. (c && is_undefined v) || has_type (infer s) v) (not-true (is_optional s) plain)

string-accepts :
    {N : Type 0} (z : Zod N) (laws : IsZod z) (s : Schema) (v : Value N)
    → is_string_schema s ≡ true
    → is_some (z.parse s v) ≡ has_type (infer s) v
unfolding has_type infer
string-accepts z laws Schema.string v r =
    ap is_some (laws.string v)
    ∙ accepts-string (λ t. some (Value.string t)) (λ t. true) (λ t. refl) v
string-accepts z laws _ v r = absurd (false-true r)

mutual
  unfolding has_type has_properties infer infer_entries is_regular are_regular is_optional
      is_unlimited are_unlimited

  pub accepts :
      {N : Type 0} (z : Zod N) (laws : IsZod z) (s : Schema) (v : Value N)
      → is_regular s ≡ true
      → is_unlimited s ≡ true
      → is_some (z.parse s v) ≡ typed_by s v
  accepts z laws Schema.string v r u = string-accepts z laws Schema.string v refl
  accepts z laws Schema.number v r u = ap is_some (laws.number v) ∙ accepts-number v
  accepts z laws Schema.boolean v r u = ap is_some (laws.boolean v) ∙ accepts-boolean v
  accepts z laws Schema.null v r u = ap is_some (laws.null v) ∙ accepts-null v
  accepts z laws Schema.unknown v r u = ap is_some (laws.unknown v)
  accepts z laws Schema.void v r u =
      ap is_some (laws.void v) ∙ accepts-unless_undefined v v none ∙ or_false (is_undefined v)
  accepts z laws Schema.coerce_string v r u = absurd (false-true u)
  accepts z laws (Schema.enum texts) v r u =
      ap is_some (laws.enum texts v)
      ∙ accepts-string (λ t. if is_among t texts then some (Value.string t) else none)
          (λ t. is_among t texts) (λ t. some_if (Value.string t) (is_among t texts)) v
  accepts z laws (Schema.min n s) v r u = absurd (false-true u)
  accepts z laws (Schema.at_least n s) v r u = absurd (false-true u)
  accepts z laws Schema.coerce_number v r u = absurd (false-true u)
  accepts z laws (Schema.max n s) v r u = absurd (false-true u)
  accepts z laws (Schema.optional s) v r u =
      ap is_some (laws.optional s v)
      ∙ accepts-unless_undefined v v (z.parse s v)
      ∙ ap (λ b. is_undefined v || b)
          (plain-eq s v (is_some (z.parse s v)) (and-left (not (is_optional s)) (is_regular s) r)
            (accepts z laws s v (and-right (not (is_optional s)) (is_regular s) r) u))
  accepts z laws (Schema.describe s) v r u = ap is_some (laws.describe s v) ∙ accepts z laws s v r u
  accepts z laws (Schema.default text s) v r u =
      ap is_some (laws.default text s v)
      ∙ accepts-unless_undefined v (Value.string text) (z.parse s v)
      ∙ ap (λ b. is_undefined v || b) (string-accepts z laws s v r)
  accepts z laws (Schema.union s t) v r u =
      let rs =
        and-left (not (is_optional s) && is_regular s) (not (is_optional t) && is_regular t) r in
      let rt =
        and-right (not (is_optional s) && is_regular s) (not (is_optional t) && is_regular t) r in
      ap is_some (laws.union s t v)
      ∙ accepts-or_else (z.parse s v) (z.parse t v)
      ∙ ap (λ b. b || is_some (z.parse t v))
          (plain-eq s v (is_some (z.parse s v)) (and-left (not (is_optional s)) (is_regular s) rs) (
            accepts z laws s v (and-right (not (is_optional s)) (is_regular s) rs)
              (and-left (is_unlimited s) (is_unlimited t) u)))
      ∙ ap (λ b. has_type (infer s) v || b)
          (plain-eq t v (is_some (z.parse t v)) (and-left (not (is_optional t)) (is_regular t) rt) (
            accepts z laws t v (and-right (not (is_optional t)) (is_regular t) rt)
              (and-right (is_unlimited s) (is_unlimited t) u)))
  accepts z laws (Schema.array s) v r u =
      let regular = and-right (not (is_optional s)) (is_regular s) r in
      ap is_some (laws.array s v)
      ∙ accepts-array (λ vs. Option.map Value.array (parse_values (z.parse s) vs))
          (λ vs. all_values (has_type (infer s)) vs)
          (λ vs.
            accepts-map Value.array (parse_values (z.parse s) vs)
            ∙ accepts-values (z.parse s) (has_type (infer s))
                (λ x.
                  plain-eq s x (is_some (z.parse s x))
                    (and-left (not (is_optional s)) (is_regular s) r)
                    (accepts z laws s x regular u))
                vs)
          v
  accepts z laws (Schema.record_of s) v r u =
      let regular = and-right (not (is_optional s)) (is_regular s) r in
      ap is_some (laws.record_of s v)
      ∙ accepts-object (λ fs. Option.map Value.object (parse_record (z.parse s) fs))
          (λ fs. all_fields (has_type (infer s)) fs)
          (λ fs.
            accepts-map Value.object (parse_record (z.parse s) fs)
            ∙ accepts-fields (z.parse s) (has_type (infer s))
                (λ x.
                  plain-eq s x (is_some (z.parse s x))
                    (and-left (not (is_optional s)) (is_regular s) r)
                    (accepts z laws s x regular u))
                fs)
          v
  accepts z laws (Schema.object es) v r u =
      ap is_some (laws.object es v)
      ∙ accepts-object (λ fs. Option.map Value.object (parse_entries z.parse es fs))
          (λ fs. has_properties (infer_entries es) fs)
          (λ fs.
            accepts-map Value.object (parse_entries z.parse es fs)
            ∙ accepts_entries z laws es fs r u)
          v

  accepts_entries :
      {N : Type 0} (z : Zod N) (laws : IsZod z) (es : Entries) (given : Fields N)
      → are_regular es ≡ true
      → are_unlimited es ≡ true
      → is_some (parse_entries z.parse es given) ≡ has_properties (infer_entries es) given
  accepts_entries z laws Entries.nothing given r u =
      ap is_some (parse_entries-nothing z.parse given)
  accepts_entries z laws (Entries.entry name s es) given r u =
      let first = and-left (lacks_key name es && is_regular s) (are_regular es) r in
      ap is_some (parse_entries-entry z.parse name s es given)
      ∙ accepts-both (z.parse s (get name given)) (parse_entries z.parse es given)
          (λ w rest. add_field name w (has name given) rest)
      ∙ ap (λ b. b && is_some (parse_entries z.parse es given))
          (accepts z laws s (get name given) (and-right (lacks_key name es) (is_regular s) first)
            (and-left (is_unlimited s) (are_unlimited es) u))
      ∙ ap (λ b. typed_by s (get name given) && b)
          (accepts_entries z laws es given
            (and-right (lacks_key name es && is_regular s) (are_regular es) r)
            (and-right (is_unlimited s) (are_unlimited es) u))
