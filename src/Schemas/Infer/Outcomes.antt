-- ===== src/Schemas/Infer/Outcomes.antt =====
-- Whether parsing gives a value, for each way in which a parser is made.
use mathlib.Core.Option
use development_plan.Base.{
  String, ◌≡◌, inl, inr, refl, sym, ap, ◌∙◌, Bool, true, false, ◌&&◌, ◌||◌, Option, none, some,
  string_eq, if◌then◌else◌, Bool-cases, if_of_true, if_of_false,
}
use development_plan.Base.Booleans.{or-left}
use development_plan.Schemas.Values.{Value, Values, Fields, is_undefined}
use development_plan.Schemas.Zod.{
  Parser, on_string, on_array, on_object, as_number, as_boolean, as_null, unless_undefined, or_else,
  parse_values, parse_record,
}
use development_plan.Schemas.Zod.Loops.{both, parse_values-cons, parse_record-field}
use development_plan.Schemas.Types.{
  is_string, is_number, is_boolean, is_null, is_array, is_object, all_values, all_fields,
}

abbrev pub is_some : {A : Type 0} → Option A → Bool
is_some none = false
is_some (some a) = true

pub some_if : {A : Type 0} (a : A) (b : Bool) → is_some (if b then some a else none) ≡ b
some_if a true = refl
some_if a false = refl

pub accepts-string :
    {N : Type 0} (f : String → Option (Value N)) (test : String → Bool)
    → ((s : String) → is_some (f s) ≡ test s)
    → (v : Value N) → is_some (on_string f v) ≡ is_string test v
accepts-string f test h (Value.string s) = h s
accepts-string f test h _ = refl

pub accepts-array :
    {N : Type 0} (f : Values N → Option (Value N)) (test : Values N → Bool)
    → ((vs : Values N) → is_some (f vs) ≡ test vs)
    → (v : Value N) → is_some (on_array f v) ≡ is_array test v
accepts-array f test h (Value.array vs) = h vs
accepts-array f test h _ = refl

pub accepts-object :
    {N : Type 0} (f : Fields N → Option (Value N)) (test : Fields N → Bool)
    → ((fs : Fields N) → is_some (f fs) ≡ test fs)
    → (v : Value N) → is_some (on_object f v) ≡ is_object test v
accepts-object f test h (Value.object fs) = h fs
accepts-object f test h _ = refl

pub accepts-number : {N : Type 0} (v : Value N) → is_some (as_number v) ≡ is_number v
accepts-number (Value.number n) = refl
accepts-number _ = refl

pub accepts-boolean : {N : Type 0} (v : Value N) → is_some (as_boolean v) ≡ is_boolean v
accepts-boolean (Value.boolean b) = refl
accepts-boolean _ = refl

pub accepts-null : {N : Type 0} (v : Value N) → is_some (as_null v) ≡ is_null v
accepts-null Value.null = refl
accepts-null _ = refl

pub accepts-unless_undefined :
    {N : Type 0} (v a : Value N) (given : Option (Value N))
    → is_some (unless_undefined v (some a) given) ≡ (is_undefined v || is_some given)
accepts-unless_undefined v a given = elim (Bool-cases (is_undefined v)) [
  | inl p ↦ ap is_some (if_of_true _ _ p) ∙ sym (or-left (is_some given) p)
  | inr n ↦ ap is_some (if_of_false _ _ n) ∙ ap (λ b. b || is_some given) (sym n)
]

pub accepts-or_else :
    {A : Type 0} (o p : Option A) → is_some (or_else o p) ≡ (is_some o || is_some p)
accepts-or_else (some a) p = refl
accepts-or_else none p = refl

pub accepts-map : {A B : Type 0} (f : A → B) (o : Option A) → is_some (Option.map f o) ≡ is_some o
accepts-map f none = refl
accepts-map f (some a) = refl

pub accepts-both :
    {A B C : Type 0} (o : Option A) (p : Option B) (f : A → B → C)
    → is_some (both o p f) ≡ (is_some o && is_some p)
accepts-both none p f = refl
accepts-both (some a) none f = refl
accepts-both (some a) (some b) f = refl

pub accepts-values :
    {N : Type 0} (parse : Parser N) (test : Value N → Bool)
    → ((v : Value N) → is_some (parse v) ≡ test v)
    → (vs : Values N) → is_some (parse_values parse vs) ≡ all_values test vs
unfolding all_values parse_values
accepts-values parse test h Values.nil = refl
accepts-values parse test h (Values.cons v vs) =
    ap is_some (parse_values-cons parse v vs)
    ∙ accepts-both (parse v) (parse_values parse vs) Values.cons
    ∙ ap (λ b. b && is_some (parse_values parse vs)) (h v)
    ∙ ap (λ b. test v && b) (accepts-values parse test h vs)

pub accepts-fields :
    {N : Type 0} (parse : Parser N) (test : Value N → Bool)
    → ((v : Value N) → is_some (parse v) ≡ test v)
    → (fs : Fields N) → is_some (parse_record parse fs) ≡ all_fields test fs
unfolding all_fields parse_record
accepts-fields parse test h Fields.end = refl
accepts-fields parse test h (Fields.field k v fs) =
    ap is_some (parse_record-field parse k v fs)
    ∙ accepts-both (parse v) (parse_record parse fs) (λ w gs. Fields.field k w gs)
    ∙ ap (λ b. b && is_some (parse_record parse fs)) (h v)
    ∙ ap (λ b. test v && b) (accepts-fields parse test h fs)
