-- ===== src/Schemas/Values.antt =====
-- The values of JavaScript that a request or an answer is made of.
use development_plan.Base.{String, Bool, true, false, ◌==◌, string_eq, if◌then◌else◌}

-- Numbers are finite; `Number` is their type.
mutual
  pub data Value (Number : Type 0) : Type 0 where
    undefined null : Value Number
    boolean : Bool → Value Number
    number : Number → Value Number
    string : String → Value Number
    array : Values Number → Value Number
    object : Fields Number → Value Number

  pub data Values (Number : Type 0) : Type 0 where
    nil : Values Number
    cons : Value Number → Values Number → Values Number

  pub data Fields (Number : Type 0) : Type 0 where
    end : Fields Number
    field : String → Value Number → Fields Number → Fields Number

-- `given[name]`
unfoldable pub get : {N : Type 0} → String → Fields N → Value N
get name end = undefined
get name (field k v given) = let rest = get name given in if k == name then v else rest

-- `name in given`
unfoldable pub has : {N : Type 0} → String → Fields N → Bool
has name end = false
has name (field k v given) = let rest = has name given in if k == name then true else rest

abbrev pub is_undefined : {N : Type 0} → Value N → Bool
is_undefined undefined = true
is_undefined null = false
is_undefined (boolean b) = false
is_undefined (number n) = false
is_undefined (string s) = false
is_undefined (array vs) = false
is_undefined (object fs) = false
