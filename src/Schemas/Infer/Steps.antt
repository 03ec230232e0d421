-- ===== src/Schemas/Infer/Steps.antt =====
-- What parsing a text, a number or the parts of a list or a record lets through.
use mathlib.Core.Option
use development_plan.Base.{
  String, ◌≡◌, inl, inr, refl, sym, ◌∙◌, subst, Bool, true, Option, none, some, string_eq,
  if◌then◌else◌, Bool-cases, if_of_true, if_of_false,
}
use development_plan.Base.Booleans.{and-both}
use development_plan.Schemas.Values.{Value, Values, Fields}
use development_plan.Schemas.Zod.{
  Parser, on_string, as_number, as_boolean, as_null, parse_values, parse_record, limited,
  limited_number,
}
use development_plan.Schemas.Zod.Loops.{
  none-some, some-eq, both-some, parse_values-cons, parse_record-field,
}
use development_plan.Schemas.Types.{
  is_string, is_number, is_boolean, is_null, all_values, all_fields,
}

pub on_string-some :
    {N : Type 0} (f : String → Option (Value N)) (test : String → Bool)
    → ((s : String) (w : Value N) → f s ≡ some w → is_string test w ≡ true)
    → (v w : Value N) → on_string f v ≡ some w
    → is_string test w ≡ true
on_string-some f test h (Value.string s) w e = h s w e
on_string-some f test h _ w e = absurd (none-some e)

pub kept-string :
    {N : Type 0} (test : String → Bool) (s : String) (w : Value N)
    → (if test s then some (Value.string s) else none) ≡ some w
    → is_string test w ≡ true
kept-string test s w e = elim (Bool-cases (test s)) [
  | inl p ↦ subst (λ x. is_string test x ≡ true) (some-eq (sym (if_of_true _ _ p) ∙ e)) p
  | inr n ↦ absurd (none-some (sym (if_of_false _ _ n) ∙ e))
]

pub as_number-some : {N : Type 0} (v w : Value N) → as_number v ≡ some w → is_number w ≡ true
as_number-some (Value.number n) w e = subst (λ x. is_number x ≡ true) (some-eq e) refl
as_number-some _ w e = absurd (none-some e)

pub as_boolean-some : {N : Type 0} (v w : Value N) → as_boolean v ≡ some w → is_boolean w ≡ true
as_boolean-some (Value.boolean b) w e = subst (λ x. is_boolean x ≡ true) (some-eq e) refl
as_boolean-some _ w e = absurd (none-some e)

pub as_null-some : {N : Type 0} (v w : Value N) → as_null v ≡ some w → is_null w ≡ true
as_null-some Value.null w e = subst (λ x. is_null x ≡ true) (some-eq e) refl
as_null-some _ w e = absurd (none-some e)

-- A limit on the length lets through what it is given, and nothing else.
pub limited_number-some :
    {N : Type 0} (test : N → Bool) (o : Option (Value N)) (w : Value N)
    → limited_number test o ≡ some w
    → o ≡ some w
limited_number-some test none w e = absurd (none-some e)
limited_number-some test (some (Value.number n)) w e = elim (Bool-cases (test n)) [
  | inl p ↦ sym (if_of_true _ _ p) ∙ e
  | inr n ↦ absurd (none-some (sym (if_of_false _ _ n) ∙ e))
]
limited_number-some test (some _) w e = absurd (none-some e)

pub limited-some :
    {N : Type 0} (test : String → Bool) (o : Option (Value N)) (w : Value N)
    → limited test o ≡ some w
    → o ≡ some w
limited-some test none w e = absurd (none-some e)
limited-some test (some (Value.string s)) w e = elim (Bool-cases (test s)) [
  | inl p ↦ sym (if_of_true _ _ p) ∙ e
  | inr n ↦ absurd (none-some (sym (if_of_false _ _ n) ∙ e))
]
limited-some test (some _) w e = absurd (none-some e)

pub map-some :
    {A B : Type 0} (f : A → B) (o : Option A) (b : B)
    → Option.map f o ≡ some b
    → (a : A) × (o ≡ some a) × (f a ≡ b)
map-some f none b e = absurd (none-some e)
map-some f (some a) b e = (a, refl, some-eq e)

pub all_values-parsed :
    {N : Type 0} (parse : Parser N) (test : Value N → Bool)
    → ((v w : Value N) → parse v ≡ some w → test w ≡ true)
    → (vs ws : Values N) → parse_values parse vs ≡ some ws
    → all_values test ws ≡ true
unfolding all_values parse_values
all_values-parsed parse test h Values.nil ws e =
    subst (λ x. all_values test x ≡ true) (some-eq e) refl
all_values-parsed parse test h (Values.cons v vs) ws e =
    let (w, us, p, q, r) =
      both-some (parse v) (parse_values parse vs) Values.cons ws
        (sym (parse_values-cons parse v vs) ∙ e) in
    subst (λ x. all_values test x ≡ true) r
      (and-both (h v w p) (all_values-parsed parse test h vs us q))

pub all_fields-parsed :
    {N : Type 0} (parse : Parser N) (test : Value N → Bool)
    → ((v w : Value N) → parse v ≡ some w → test w ≡ true)
    → (fs gs : Fields N) → parse_record parse fs ≡ some gs
    → all_fields test gs ≡ true
unfolding all_fields parse_record
all_fields-parsed parse test h Fields.end gs e =
    subst (λ x. all_fields test x ≡ true) (some-eq e) refl
all_fields-parsed parse test h (Fields.field k v fs) gs e =
    let (w, us, p, q, r) =
      both-some (parse v) (parse_record parse fs) (λ w hs. Fields.field k w hs) gs
        (sym (parse_record-field parse k v fs) ∙ e) in
    subst (λ x. all_fields test x ≡ true) r
      (and-both (h v w p) (all_fields-parsed parse test h fs us q))
