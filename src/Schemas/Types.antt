-- ===== src/Schemas/Types.antt =====
-- The types of lib/api-client-react/src/generated/api.schemas.ts, and the values that have them.
use development_plan.Base.{String, Bool, true, false, ◌&&◌, ◌||◌, List, [], ◌∷◌, string_eq}
use development_plan.Schemas.Values.{Value, Values, Fields, get, is_undefined}
use development_plan.Schemas.Zod.{is_among}

-- TypeScript types. A property may be optional. An index signature of unknown values beside the
-- properties is left out: every object meets it.
mutual
  pub data Shape : Type 0 where
    string number boolean null unknown void : Shape
    literals : List String → Shape
    union : Shape → Shape → Shape
    array index : Shape → Shape
    interface : Properties → Shape

  pub data Properties : Type 0 where
    nothing : Properties
    property : String → Bool → Shape → Properties → Properties

abbrev pub is_string : {N : Type 0} → (String → Bool) → Value N → Bool
is_string test (Value.string s) = test s
is_string test _ = false

abbrev pub is_number : {N : Type 0} → Value N → Bool
is_number (Value.number n) = true
is_number _ = false

abbrev pub is_boolean : {N : Type 0} → Value N → Bool
is_boolean (Value.boolean b) = true
is_boolean _ = false

abbrev pub is_null : {N : Type 0} → Value N → Bool
is_null Value.null = true
is_null _ = false

abbrev pub is_array : {N : Type 0} → (Values N → Bool) → Value N → Bool
is_array test (Value.array vs) = test vs
is_array test _ = false

abbrev pub is_object : {N : Type 0} → (Fields N → Bool) → Value N → Bool
is_object test (Value.object fs) = test fs
is_object test _ = false

unfoldable pub all_values : {N : Type 0} → (Value N → Bool) → Values N → Bool
all_values test Values.nil = true
all_values test (Values.cons v vs) = test v && all_values test vs

unfoldable pub all_fields : {N : Type 0} → (Value N → Bool) → Fields N → Bool
all_fields test Fields.end = true
all_fields test (Fields.field k v fs) = test v && all_fields test fs

-- A value of a property, which may be undefined where the property is optional.
abbrev pub or_undefined : {N : Type 0} → Bool → Value N → Bool → Bool
or_undefined optional v typed = (optional && is_undefined v) || typed

-- Whether a value has a type.
unfoldable mutual
  pub has_type : {N : Type 0} → Shape → Value N → Bool
  has_type string v = is_string (λ s. true) v
  has_type number v = is_number v
  has_type boolean v = is_boolean v
  has_type null v = is_null v
  has_type unknown v = true
  has_type void v = is_undefined v
  has_type (literals texts) v = is_string (λ s. is_among s texts) v
  has_type (union a b) v = has_type a v || has_type b v
  has_type (array a) v = is_array (λ vs. all_values (has_type a) vs) v
  has_type (index a) v = is_object (λ fs. all_fields (has_type a) fs) v
  has_type (interface ps) v = is_object (λ fs. has_properties ps fs) v

  pub has_properties : {N : Type 0} → Properties → Fields N → Bool
  has_properties nothing fs = true
  has_properties (property name optional a ps) fs =
      or_undefined optional (get name fs) (has_type a (get name fs)) && has_properties ps fs

-- `name: a` and `name?: a`
abbrev pub required : String → Shape → String × Bool × Shape
required name a = (name, false, a)

abbrev pub optional : String → Shape → String × Bool × Shape
optional name a = (name, true, a)

-- The properties of an interface, as a list.
abbrev pub properties : List (String × Bool × Shape) → Properties
properties [] = nothing
properties ((name, o, a) ∷ rest) = property name o a (properties rest)
