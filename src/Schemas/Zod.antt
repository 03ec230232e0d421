-- ===== src/Schemas/Zod.antt =====
-- The schemas that lib/api-zod/src/generated/api.ts builds of zod, and what zod documents of parsing
-- by them.
pub mod Loops
use mathlib.Core.Option
use development_plan.Base.{
  ℕ, ◌≤◌, String, ◌≡◌, Bool, true, false, not, ◌&&◌, Option, none, some, List, [], ◌∷◌, ◌==◌,
  string_eq, if◌then◌else◌,
}
use development_plan.Base.Booleans.{leb}
use development_plan.Schemas.Values.{Value, Values, Fields, get, has, is_undefined}

-- The calls of zod; `min` on a number is `at_least`. A description changes nothing in parsing, and its text is left out.
mutual
  pub data Schema : Type 0 where
    string number boolean null unknown void coerce_string coerce_number : Schema
    enum : List String → Schema
    min max at_least : ℕ → Schema → Schema
    optional describe : Schema → Schema
    default : String → Schema → Schema
    union : Schema → Schema → Schema
    array record_of : Schema → Schema
    object : Entries → Schema

  pub data Entries : Type 0 where
    nothing : Entries
    entry : String → Schema → Entries → Entries

abbrev pub Parser : Type 0 → Type 0
Parser N = Value N → Option (Value N)

-- What a parser of one kind of value does with the others.
abbrev pub on_string : {N : Type 0} → (String → Option (Value N)) → Parser N
on_string f (Value.string s) = f s
on_string f _ = none

abbrev pub on_array : {N : Type 0} → (Values N → Option (Value N)) → Parser N
on_array f (Value.array vs) = f vs
on_array f _ = none

abbrev pub on_object : {N : Type 0} → (Fields N → Option (Value N)) → Parser N
on_object f (Value.object fs) = f fs
on_object f _ = none

abbrev pub as_number : {N : Type 0} → Parser N
as_number (Value.number n) = some (Value.number n)
as_number _ = none

abbrev pub as_boolean : {N : Type 0} → Parser N
as_boolean (Value.boolean b) = some (Value.boolean b)
as_boolean _ = none

abbrev pub as_null : {N : Type 0} → Parser N
as_null Value.null = some Value.null
as_null _ = none

-- The value given, or another where it is undefined.
abbrev pub unless_undefined : {A : Type 0} {N : Type 0} → Value N → A → A → A
unless_undefined v missing given = if is_undefined v then missing else given

abbrev pub is_among : String → List String → Bool
is_among s [] = false
is_among s (t ∷ ts) = let rest = is_among s ts in if s == t then true else rest

abbrev pub or_else : {A : Type 0} → Option A → Option A → Option A
or_else (some a) b = some a
or_else none b = b

-- Every element by one parser.
unfoldable pub parse_values : {N : Type 0} → Parser N → Values N → Option (Values N)
parse_values parse Values.nil = some Values.nil
parse_values parse (Values.cons v vs) = elim (parse v) [
  | none ↦ none
  | some w ↦ elim (parse_values parse vs) [ none ↦ none | some ws ↦ some (Values.cons w ws) ]
]

unfoldable pub parse_record : {N : Type 0} → Parser N → Fields N → Option (Fields N)
parse_record parse Fields.end = some Fields.end
parse_record parse (Fields.field k v fs) = elim (parse v) [
  | none ↦ none
  | some w ↦ elim (parse_record parse fs) [ none ↦ none | some gs ↦ some (Fields.field k w gs) ]
]

-- A key that is not there and gives nothing is left out.
abbrev pub add_field : {N : Type 0} → String → Value N → Bool → Fields N → Fields N
add_field name w given rest = if is_undefined w && not given then rest else Fields.field name w rest

-- Each key of the schema, and no other.
unfoldable pub parse_entries :
    {N : Type 0} → (Schema → Parser N) → Entries → Fields N → Option (Fields N)
parse_entries parse nothing given = some Fields.end
parse_entries parse (entry name s es) given = elim (parse s (get name given)) [
  | none ↦ none
  | some w ↦ elim (parse_entries parse es given) [
    | none ↦ none
    | some rest ↦ some (add_field name w (has name given) rest)
  ]
]

-- zod: the value that `safeParse` gives, if it accepts; with the
-- length of a text, the text and the number of a value, none for NaN, and the order of numbers.
pub record Zod (N : Type 0) : Type 0 where
  pub parse : Schema → Parser N
  pub length : String → ℕ
  pub to_string : Value N → String
  pub to_number : Value N → Option N
  pub is_at_least : ℕ → N → Bool

abbrev pub limited : {N : Type 0} → (String → Bool) → Option (Value N) → Option (Value N)
limited test none = none
limited test (some w) = on_string (λ s. if test s then some (Value.string s) else none) w

abbrev pub on_number : {N : Type 0} → (N → Option (Value N)) → Parser N
on_number f (Value.number n) = f n
on_number f _ = none

abbrev pub limited_number : {N : Type 0} → (N → Bool) → Option (Value N) → Option (Value N)
limited_number test none = none
limited_number test (some w) = on_number (λ n. if test n then some (Value.number n) else none) w

-- What the documentation of zod says of each kind of schema.
pub record IsZod {N : Type 0} (z : Zod N) : Type 0 where
  pub string : (v : Value N) → z.parse string v ≡ on_string (λ s. some (Value.string s)) v
  pub coerce_string : (v : Value N) → z.parse coerce_string v ≡ some (Value.string (z.to_string v))
  pub coerce_number :
      (v : Value N) → z.parse coerce_number v ≡ Option.map Value.number (z.to_number v)
  pub number : (v : Value N) → z.parse number v ≡ as_number v
  pub boolean : (v : Value N) → z.parse boolean v ≡ as_boolean v
  pub null : (v : Value N) → z.parse null v ≡ as_null v
  pub unknown : (v : Value N) → z.parse unknown v ≡ some v
  pub void : (v : Value N) → z.parse void v ≡ unless_undefined v (some v) none
  pub enum :
      (texts : List String) (v : Value N)
      → z.parse (enum texts) v
        ≡ on_string (λ s. if is_among s texts then some (Value.string s) else none) v
  pub min :
      (n : ℕ) (s : Schema) (v : Value N)
      → z.parse (min n s) v ≡ limited (λ t. leb n (z.length t)) (z.parse s v)
  pub max :
      (n : ℕ) (s : Schema) (v : Value N)
      → z.parse (max n s) v ≡ limited (λ t. leb (z.length t) n) (z.parse s v)
  pub at_least :
      (n : ℕ) (s : Schema) (v : Value N)
      → z.parse (at_least n s) v ≡ limited_number (z.is_at_least n) (z.parse s v)
  pub optional :
      (s : Schema) (v : Value N)
      → z.parse (optional s) v ≡ unless_undefined v (some v) (z.parse s v)
  pub describe : (s : Schema) (v : Value N) → z.parse (describe s) v ≡ z.parse s v
  pub default :
      (text : String) (s : Schema) (v : Value N)
      → z.parse (default text s) v ≡ unless_undefined v (some (Value.string text)) (z.parse s v)
  pub union :
      (s t : Schema) (v : Value N) → z.parse (union s t) v ≡ or_else (z.parse s v) (z.parse t v)
  pub array :
      (s : Schema) (v : Value N)
      → z.parse (array s) v
        ≡ on_array (λ vs. Option.map Value.array (parse_values (z.parse s) vs)) v
  pub record_of :
      (s : Schema) (v : Value N)
      → z.parse (record_of s) v
        ≡ on_object (λ fs. Option.map Value.object (parse_record (z.parse s) fs)) v
  pub object :
      (es : Entries) (v : Value N)
      → z.parse (object es) v
        ≡ on_object (λ fs. Option.map Value.object (parse_entries z.parse es fs)) v

-- The keys of an object, as a list.
abbrev pub keys : List (String × Schema) → Entries
keys [] = nothing
keys ((name, s) ∷ rest) = entry name s (keys rest)
