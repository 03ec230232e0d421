-- ===== src/Schemas/Infer/Parsing.antt =====
-- What a schema lets through has the type that is inferred of it.
use mathlib.Core.Option
use development_plan.Base.{
  String, ◌≡◌, ◌⊎◌, inl, inr, refl, sym, ap, ◌∙◌, subst, true, false, not, ◌&&◌, ◌||◌, Option, none,
  some, string_eq, if◌then◌else◌, Bool-cases, if_of_true, if_of_false,
}
use development_plan.Base.Booleans.{
  false-true, and-left, and-right, and-both, not-true, or-right, or-left,
}
use development_plan.Schemas.Values.{Value, Values, Fields, get, has, is_undefined}
use development_plan.Schemas.Zod.{
  Schema, Entries, on_array, on_object, unless_undefined, is_among, or_else, parse_values,
  parse_record, parse_entries, add_field, Zod, IsZod,
}
use development_plan.Base.Booleans.{leb}
use development_plan.Schemas.Zod.Loops.{none-some, some-eq, both-some, parse_entries-entry}
use development_plan.Schemas.Types.{
  is_string, is_number, is_array, is_object, all_values, all_fields, or_undefined, has_type,
  has_properties,
}
use development_plan.Schemas.Infer.{
  is_optional, infer, infer_entries, lacks_key, is_string_schema, is_regular, are_regular,
}
use development_plan.Schemas.Infer.Steps.{
  on_string-some, kept-string, as_number-some, as_boolean-some, as_null-some, limited-some,
  limited_number-some, map-some, all_values-parsed, all_fields-parsed,
}
use development_plan.Schemas.Infer.Keys.{get-parse_entries, has_properties-add_field, get-added}

abbrev pub Typed : {N : Type 0} → Schema → Value N → Type 0
Typed s w = or_undefined (is_optional s) w (has_type (infer s) w) ≡ true

-- A schema that is not optional lets through what has its type.
pub plain-Typed :
    {N : Type 0} (s : Schema) (w : Value N)
    → is_optional s ≡ false
    → Typed s w
    → has_type (infer s) w ≡ true
plain-Typed s w plain typed =
    ap (λ b. (b && is_undefined w) || has_type (infer s) w) (sym plain) ∙ typed

Typed-of : {N : Type 0} (s : Schema) (w : Value N) → has_type (infer s) w ≡ true → Typed s w
Typed-of s w h = or-right (is_optional s && is_undefined w) h

default-typed :
    {N : Type 0} (s : Schema) (text : String) (w : Value N)
    → is_string_schema s ≡ true
    → Value.string text ≡ w
    → has_type (infer s) w ≡ true
unfolding has_type infer
default-typed Schema.string text w r e = subst (λ x. is_string (λ u. true) x ≡ true) e refl
default-typed _ text w r e = absurd (false-true r)

string-typed :
    {N : Type 0} (z : Zod N) (laws : IsZod z) (s : Schema) (v w : Value N)
    → is_string_schema s ≡ true
    → z.parse s v ≡ some w
    → has_type (infer s) w ≡ true
unfolding has_type infer
string-typed z laws Schema.string v w r e =
    on_string-some (λ t. some (Value.string t)) (λ t. true)
      (λ t x p. subst (λ y. is_string (λ u. true) y ≡ true) (some-eq p) refl) v w
      (sym (laws.string v) ∙ e)
string-typed z laws _ v w r e = absurd (false-true r)

pub unless_undefined-some :
    {N : Type 0} (v w : Value N) (missing given : Option (Value N))
    → unless_undefined v missing given ≡ some w
    → ((is_undefined v ≡ true) × (missing ≡ some w)) ⊎ (given ≡ some w)
unless_undefined-some v w missing given e = elim (Bool-cases (is_undefined v)) [
  | inl p ↦ inl (p, sym (if_of_true _ _ p) ∙ e)
  | inr n ↦ inr (sym (if_of_false _ _ n) ∙ e)
]

or_else-some :
    {A : Type 0} (o p : Option A) (a : A) → or_else o p ≡ some a → (o ≡ some a) ⊎ (p ≡ some a)
or_else-some (some b) p a e = inl e
or_else-some none p a e = inr e

on_array-some :
    {N : Type 0} (f : Values N → Option (Value N)) (v w : Value N)
    → on_array f v ≡ some w
    → (vs : Values N) × (f vs ≡ some w)
on_array-some f (Value.array vs) w e = (vs, e)
on_array-some f _ w e = absurd (none-some e)

on_object-some :
    {N : Type 0} (f : Fields N → Option (Value N)) (v w : Value N)
    → on_object f v ≡ some w
    → (fs : Fields N) × (f fs ≡ some w)
on_object-some f (Value.object fs) w e = (fs, e)
on_object-some f _ w e = absurd (none-some e)

mutual
  unfolding has_type has_properties infer infer_entries is_regular are_regular is_optional

  pub typed :
      {N : Type 0} (z : Zod N) (laws : IsZod z) (s : Schema) (v w : Value N)
      → is_regular s ≡ true
      → z.parse s v ≡ some w
      → Typed s w
  typed z laws Schema.string v w r e =
      on_string-some (λ t. some (Value.string t)) (λ t. true)
        (λ t x p. subst (λ y. is_string (λ u. true) y ≡ true) (some-eq p) refl) v w
        (sym (laws.string v) ∙ e)
  typed z laws Schema.number v w r e = as_number-some v w (sym (laws.number v) ∙ e)
  typed z laws Schema.boolean v w r e = as_boolean-some v w (sym (laws.boolean v) ∙ e)
  typed z laws Schema.null v w r e = as_null-some v w (sym (laws.null v) ∙ e)
  typed z laws Schema.unknown v w r e = refl
  typed z laws Schema.void v w r e =
      elim (unless_undefined-some v w (some v) none (sym (laws.void v) ∙ e)) [
        | inl p ↦ subst (λ x. is_undefined x ≡ true) (some-eq p.1) p.0
        | inr n ↦ absurd (none-some n)
      ]
  typed z laws Schema.coerce_string v w r e =
      subst (λ x. is_string (λ u. true) x ≡ true) (some-eq (sym (laws.coerce_string v) ∙ e)) refl
  typed z laws Schema.coerce_number v w r e =
      let (n, p, same) = map-some Value.number (z.to_number v) w (sym (laws.coerce_number v) ∙ e) in
      subst (λ x. is_number x ≡ true) same refl
  typed z laws (Schema.at_least n s) v w r e =
      let plain = and-left (not (is_optional s)) (is_regular s) r in
      plain-Typed s w (not-true (is_optional s) plain) (
        typed z laws s v w (and-right (not (is_optional s)) (is_regular s) r)
          (limited_number-some (z.is_at_least n) (z.parse s v) w (sym (laws.at_least n s v) ∙ e)))
  typed z laws (Schema.enum texts) v w r e =
      on_string-some (λ t. if is_among t texts then some (Value.string t) else none)
        (λ t. is_among t texts) (λ t x p. kept-string (λ u. is_among u texts) t x p) v w
        (sym (laws.enum texts v) ∙ e)
  typed z laws (Schema.min n s) v w r e =
      let plain = and-left (not (is_optional s)) (is_regular s) r in
      plain-Typed s w (not-true (is_optional s) plain) (
        typed z laws s v w (and-right (not (is_optional s)) (is_regular s) r)
          (limited-some (λ t. leb n (z.length t)) (z.parse s v) w (sym (laws.min n s v) ∙ e)))
  typed z laws (Schema.max n s) v w r e =
      let plain = and-left (not (is_optional s)) (is_regular s) r in
      plain-Typed s w (not-true (is_optional s) plain) (
        typed z laws s v w (and-right (not (is_optional s)) (is_regular s) r)
          (limited-some (λ t. leb (z.length t) n) (z.parse s v) w (sym (laws.max n s v) ∙ e)))
  typed z laws (Schema.optional s) v w r e =
      let plain = and-left (not (is_optional s)) (is_regular s) r in
      elim (unless_undefined-some v w (some v) (z.parse s v) (sym (laws.optional s v) ∙ e)) [
        | inl p ↦
            or-left (has_type (infer s) w) (subst (λ x. is_undefined x ≡ true) (some-eq p.1) p.0)
        | inr q ↦ or-right (is_undefined w) (
            plain-Typed s w (not-true (is_optional s) plain)
              (typed z laws s v w (and-right (not (is_optional s)) (is_regular s) r) q))
      ]
  typed z laws (Schema.describe s) v w r e = typed z laws s v w r (sym (laws.describe s v) ∙ e)
  typed z laws (Schema.default text s) v w r e =
      elim (unless_undefined-some v w (some (Value.string text)) (z.parse s v)
        (sym (laws.default text s v) ∙ e)) [
          | inl p ↦ or-right (is_undefined w) (default-typed s text w r (some-eq p.1))
          | inr q ↦ or-right (is_undefined w) (string-typed z laws s v w r q)
        ]
  typed z laws (Schema.union s t) v w r e =
      let rs =
        and-left (not (is_optional s) && is_regular s) (not (is_optional t) && is_regular t) r in
      let rt =
        and-right (not (is_optional s) && is_regular s) (not (is_optional t) && is_regular t) r in
      elim (or_else-some (z.parse s v) (z.parse t v) w (sym (laws.union s t v) ∙ e)) [
        | inl p ↦ or-left (has_type (infer t) w) (
            plain-Typed s w
              (not-true (is_optional s) (and-left (not (is_optional s)) (is_regular s) rs))
              (typed z laws s v w (and-right (not (is_optional s)) (is_regular s) rs) p))
        | inr q ↦ or-right (has_type (infer s) w) (
            plain-Typed t w
              (not-true (is_optional t) (and-left (not (is_optional t)) (is_regular t) rt))
              (typed z laws t v w (and-right (not (is_optional t)) (is_regular t) rt) q))
      ]
  typed z laws (Schema.array s) v w r e =
      let plain = not-true (is_optional s) (and-left (not (is_optional s)) (is_regular s) r) in
      let regular = and-right (not (is_optional s)) (is_regular s) r in
      let (vs, p) =
        on_array-some (λ vs. Option.map Value.array (parse_values (z.parse s) vs)) v w
          (sym (laws.array s v) ∙ e) in
      let (ws, q, same) = map-some Value.array (parse_values (z.parse s) vs) w p in
      subst (λ x. is_array (λ us. all_values (has_type (infer s)) us) x ≡ true) same
        (all_values-parsed (z.parse s) (has_type (infer s))
          (λ x y h. plain-Typed s y plain (typed z laws s x y regular h)) vs ws q)
  typed z laws (Schema.record_of s) v w r e =
      let plain = not-true (is_optional s) (and-left (not (is_optional s)) (is_regular s) r) in
      let regular = and-right (not (is_optional s)) (is_regular s) r in
      let (fs, p) =
        on_object-some (λ fs. Option.map Value.object (parse_record (z.parse s) fs)) v w
          (sym (laws.record_of s v) ∙ e) in
      let (gs, q, same) = map-some Value.object (parse_record (z.parse s) fs) w p in
      subst (λ x. is_object (λ us. all_fields (has_type (infer s)) us) x ≡ true) same
        (all_fields-parsed (z.parse s) (has_type (infer s))
          (λ x y h. plain-Typed s y plain (typed z laws s x y regular h)) fs gs q)
  typed z laws (Schema.object es) v w r e =
      let (fs, p) =
        on_object-some (λ fs. Option.map Value.object (parse_entries z.parse es fs)) v w
          (sym (laws.object es v) ∙ e) in
      let (gs, q, same) = map-some Value.object (parse_entries z.parse es fs) w p in
      subst (λ x. is_object (λ us. has_properties (infer_entries es) us) x ≡ true) same
        (typed_entries z laws es fs gs r q)

  typed_entries :
      {N : Type 0} (z : Zod N) (laws : IsZod z) (es : Entries) (given out : Fields N)
      → are_regular es ≡ true
      → parse_entries z.parse es given ≡ some out
      → has_properties (infer_entries es) out ≡ true
  typed_entries z laws Entries.nothing given out r e = refl
  typed_entries z laws (Entries.entry name s es) given out r e =
      let first = and-left (lacks_key name es && is_regular s) (are_regular es) r in
      let lack = and-left (lacks_key name es) (is_regular s) first in
      let (w, rest, p, q, same) =
        both-some (z.parse s (get name given)) (parse_entries z.parse es given)
          (λ w rest. add_field name w (has name given) rest) out
          (sym (parse_entries-entry z.parse name s es given) ∙ e) in
      let gone = get-parse_entries z.parse name es given rest lack q in
      subst (λ x. has_properties (infer_entries (Entries.entry name s es)) x ≡ true) same
        (and-both
          (subst (λ x. Typed s x) (sym (get-added name w (has name given) rest gone))
            (typed z laws s (get name given) w (and-right (lacks_key name es) (is_regular s) first)
              p))
          (has_properties-add_field name w (has name given) rest es lack
            ∙ typed_entries z laws es given rest
                (and-right (lacks_key name es && is_regular s) (are_regular es) r) q))
