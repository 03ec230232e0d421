-- ===== src/Schemas/Zod/Loops.antt =====
-- What comes of parsing the parts of a value, one after another.
use development_plan.Base.{String, ◌≡◌, ◌≢◌, refl, Option, none, some, string_eq, arith}
use development_plan.Schemas.Values.{Value, Values, Fields, get, has}
use development_plan.Schemas.Zod.{
  Schema, Entries, Parser, parse_values, parse_record, parse_entries, add_field,
}

pub none-some : {A : Type 0} {a : A} → none ≢ some a
none-some e = cc

pub some-eq : {A : Type 0} {a b : A} → some a ≡ some b → a ≡ b
some-eq e = cc

-- Two steps that both give a value.
abbrev pub both : {A B C : Type 0} → Option A → Option B → (A → B → C) → Option C
both none b f = none
both (some a) none f = none
both (some a) (some b) f = some (f a b)

pub both-some :
    {A B C : Type 0} (o : Option A) (p : Option B) (f : A → B → C) (c : C)
    → both o p f ≡ some c
    → (a : A) × (b : B) × (o ≡ some a) × (p ≡ some b) × (f a b ≡ c)
both-some none p f c e = absurd (none-some e)
both-some (some a) none f c e = absurd (none-some e)
both-some (some a) (some b) f c e = (a, b, refl, refl, some-eq e)

pub parse_values-cons :
    {N : Type 0} (parse : Parser N) (v : Value N) (vs : Values N)
    → parse_values parse (Values.cons v vs) ≡ both (parse v) (parse_values parse vs) Values.cons
unfolding parse_values
parse_values-cons parse v vs = ground arith

pub parse_record-field :
    {N : Type 0} (parse : Parser N) (k : String) (v : Value N) (fs : Fields N)
    → parse_record parse (Fields.field k v fs)
      ≡ both (parse v) (parse_record parse fs) (λ w gs. Fields.field k w gs)
unfolding parse_record
parse_record-field parse k v fs = ground arith

pub parse_entries-entry :
    {N : Type 0} (parse : Schema → Parser N) (name : String) (s : Schema) (es : Entries)
    (given : Fields N)
    → parse_entries parse (Entries.entry name s es) given
      ≡ both
          (parse s (get name given))
          (parse_entries parse es given)
          (λ w rest. add_field name w (has name given) rest)
unfolding parse_entries
parse_entries-entry parse name s es given = ground arith

pub parse_entries-nothing :
    {N : Type 0} (parse : Schema → Parser N) (given : Fields N)
    → parse_entries parse Entries.nothing given ≡ some Fields.end
unfolding parse_entries
parse_entries-nothing parse given = refl
