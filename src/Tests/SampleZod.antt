-- ===== src/Tests/SampleZod.antt =====
-- A zod that parses as zod documents, over whole numbers.
use mathlib.Core.Option
use development_plan.Base.{ℕ, ◌≡◌, refl, ap, ◌==◌, string_eq, Option, none, some, if◌then◌else◌}
use development_plan.Schemas.Values.{Value, Fields, get, has}
use development_plan.Schemas.Zod.{
  Schema, Entries, Parser, on_string, on_array, on_object, as_number, as_boolean, as_null,
  unless_undefined, is_among, or_else, parse_values, parse_record, parse_entries, add_field, Zod,
  limited, limited_number, IsZod,
}
use development_plan.Base.Booleans.{leb}

-- The text "1200" is a number.
abbrev number_of : Value ℕ → Option ℕ
number_of (Value.number n) = some n
number_of (Value.string s) = if s == "1200" then some 1200 else none
number_of _ = none

-- Every text counts as one character, and every value has the empty text.
unfoldable mutual
  pub parse : Schema → Parser ℕ
  parse Schema.string v = on_string (λ s. some (Value.string s)) v
  parse Schema.number v = as_number v
  parse Schema.boolean v = as_boolean v
  parse Schema.null v = as_null v
  parse Schema.unknown v = some v
  parse Schema.void v = unless_undefined v (some v) none
  parse Schema.coerce_string v = some (Value.string "")
  parse Schema.coerce_number v = Option.map Value.number (number_of v)
  parse (Schema.at_least n s) v = limited_number (leb n) (parse s v)
  parse (Schema.enum texts) v =
      on_string (λ s. if is_among s texts then some (Value.string s) else none) v
  parse (Schema.min n s) v = limited (λ t. leb n 1) (parse s v)
  parse (Schema.max n s) v = limited (λ t. leb 1 n) (parse s v)
  parse (Schema.optional s) v = unless_undefined v (some v) (parse s v)
  parse (Schema.describe s) v = parse s v
  parse (Schema.default text s) v = unless_undefined v (some (Value.string text)) (parse s v)
  parse (Schema.union s t) v = or_else (parse s v) (parse t v)
  parse (Schema.array s) v = on_array (λ vs. Option.map Value.array (parse_values (parse s) vs)) v
  parse (Schema.record_of s) v =
      on_object (λ fs. Option.map Value.object (parse_record (parse s) fs)) v
  parse (Schema.object es) v = on_object (λ fs. Option.map Value.object (parse_each es fs)) v

  pub parse_each : Entries → Fields ℕ → Option (Fields ℕ)
  parse_each Entries.nothing given = some Fields.end
  parse_each (Entries.entry name s es) given = elim (parse s (get name given)) [
    | none ↦ none
    | some w ↦ elim (parse_each es given) [
      | none ↦ none
      | some rest ↦ some (add_field name w (has name given) rest)
    ]
  ]

abbrev pub sample_zod : Zod ℕ
sample_zod = record {
  parse = parse;
  length = λ t. 1;
  to_string = λ v. "";
  to_number = number_of;
  is_at_least = leb;
}

parse_each-parse_entries :
    (es : Entries) (given : Fields ℕ) → parse_each es given ≡ parse_entries parse es given
unfolding parse_each parse_entries
parse_each-parse_entries Entries.nothing given = refl
parse_each-parse_entries (Entries.entry name s es) given =
    ap
      (λ parsed. elim (parse s (get name given)) [
        | none ↦ none
        | some w ↦ elim parsed [
          | none ↦ none
          | some rest ↦ some (add_field name w (has name given) rest)
        ]
      ])
      (parse_each-parse_entries es given)

object-parse :
    (es : Entries) (v : Value ℕ)
    → parse (Schema.object es) v
      ≡ on_object (λ fs. Option.map Value.object (parse_entries parse es fs)) v
unfolding parse
object-parse es (Value.object fs) = ap (Option.map Value.object) (parse_each-parse_entries es fs)
object-parse es Value.undefined = refl
object-parse es Value.null = refl
object-parse es (Value.boolean b) = refl
object-parse es (Value.number n) = refl
object-parse es (Value.string s) = refl
object-parse es (Value.array vs) = refl

pub sample_zod-IsZod : IsZod sample_zod
unfolding parse
sample_zod-IsZod = record {
  string = λ v. refl;
  coerce_string = λ v. refl;
  coerce_number = λ v. refl;
  at_least = λ n s v. refl;
  number = λ v. refl;
  boolean = λ v. refl;
  null = λ v. refl;
  unknown = λ v. refl;
  void = λ v. refl;
  enum = λ texts v. refl;
  min = λ n s v. refl;
  max = λ n s v. refl;
  optional = λ s v. refl;
  describe = λ s v. refl;
  default = λ text s v. refl;
  union = λ s t v. refl;
  array = λ s v. refl;
  record_of = λ s v. refl;
  object = object-parse;
}
